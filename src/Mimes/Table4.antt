-- ===== src/Mimes/Table4.antt =====
-- es3/mimes.cpp: the assignments of `init_mimes`, part 4 of 5.
use extremes.Base.{List, [], ◌∷◌, String}

abbrev pub table4 : List (String × String)
table4 =
    (".py ", "text/x-script.phyton")
    ∷ (".pyc ", "applicaiton/x-bytecode.python")
    ∷ (".qcp ", "audio/vnd.qcelp")
    ∷ (".qd3 ", "x-world/x-3dmf")
    ∷ (".qd3d ", "x-world/x-3dmf")
    ∷ (".qif", "image/x-quicktime")
    ∷ (".qt", "video/quicktime")
    ∷ (".qtc", "video/x-qtc")
    ∷ (".qti", "image/x-quicktime")
    ∷ (".qtif", "image/x-quicktime")
    ∷ (".ra", "audio/x-pn-realaudio")
    ∷ (".ra", "audio/x-pn-realaudio-plugin")
    ∷ (".ra", "audio/x-realaudio")
    ∷ (".ram", "audio/x-pn-realaudio")
    ∷ (".ras", "application/x-cmu-raster")
    ∷ (".ras", "image/cmu-raster")
    ∷ (".ras", "image/x-cmu-raster")
    ∷ (".rast", "image/cmu-raster")
    ∷ (".rexx ", "text/x-script.rexx")
    ∷ (".rf", "image/vnd.rn-realflash")
    ∷ (".rgb ", "image/x-rgb")
    ∷ (".rm", "application/vnd.rn-realmedia")
    ∷ (".rm", "audio/x-pn-realaudio")
    ∷ (".rmi", "audio/mid")
    ∷ (".rmm ", "audio/x-pn-realaudio")
    ∷ (".rmp", "audio/x-pn-realaudio")
    ∷ (".rmp", "audio/x-pn-realaudio-plugin")
    ∷ (".rng", "application/ringing-tones")
    ∷ (".rng", "application/vnd.nokia.ringing-tone")
    ∷ (".rnx ", "application/vnd.rn-realplayer")
    ∷ (".roff", "application/x-troff")
    ∷ (".rp ", "image/vnd.rn-realpix")
    ∷ (".rpm", "audio/x-pn-realaudio-plugin")
    ∷ (".rt", "text/richtext")
    ∷ (".rt", "text/vnd.rn-realtext")
    ∷ (".rtf", "application/rtf")
    ∷ (".rtf", "application/x-rtf")
    ∷ (".rtf", "text/richtext")
    ∷ (".rtx", "application/rtf")
    ∷ (".rtx", "text/richtext")
    ∷ (".rv", "video/vnd.rn-realvideo")
    ∷ (".s", "text/x-asm")
    ∷ (".s3m ", "audio/s3m")
    ∷ (".saveme", "application/octet-stream")
    ∷ (".sbk ", "application/x-tbook")
    ∷ (".scm", "application/x-lotusscreencam")
    ∷ (".scm", "text/x-script.guile")
    ∷ (".scm", "text/x-script.scheme")
    ∷ (".scm", "video/x-scm")
    ∷ (".sdml", "text/plain")
    ∷ (".sdp ", "application/sdp")
    ∷ (".sdp ", "application/x-sdp")
    ∷ (".sdr", "application/sounder")
    ∷ (".sea", "application/sea")
    ∷ (".sea", "application/x-sea")
    ∷ (".set", "application/set")
    ∷ (".sgm ", "text/sgml")
    ∷ (".sgm ", "text/x-sgml")
    ∷ (".sgml", "text/sgml")
    ∷ (".sgml", "text/x-sgml")
    ∷ (".sh", "application/x-bsh")
    ∷ (".sh", "application/x-sh")
    ∷ (".sh", "application/x-shar")
    ∷ (".sh", "text/x-script.sh")
    ∷ (".shar", "application/x-bsh")
    ∷ (".shar", "application/x-shar")
    ∷ (".shtml ", "text/html")
    ∷ (".shtml", "text/x-server-parsed-html")
    ∷ (".sid", "audio/x-psid")
    ∷ (".sit", "application/x-sit")
    ∷ (".sit", "application/x-stuffit")
    ∷ (".skd", "application/x-koan")
    ∷ (".skm ", "application/x-koan")
    ∷ (".skp ", "application/x-koan")
    ∷ (".skt ", "application/x-koan")
    ∷ (".sl ", "application/x-seelogo")
    ∷ (".smi ", "application/smil")
    ∷ (".smil ", "application/smil")
    ∷ (".snd", "audio/basic")
    ∷ (".snd", "audio/x-adpcm")
    ∷ (".sol", "application/solids")
    ∷ (".spc ", "application/x-pkcs7-certificates")
    ∷ (".spc ", "text/x-speech")
    ∷ (".spl", "application/futuresplash")
    ∷ (".spr", "application/x-sprite")
    ∷ (".sprite ", "application/x-sprite")
    ∷ (".src", "application/x-wais-source")
    ∷ (".ssi", "text/x-server-parsed-html")
    ∷ (".ssm ", "application/streamingmedia")
    ∷ (".sst", "application/vnd.ms-pki.certstore")
    ∷ (".step", "application/step")
    ∷ (".stl", "application/sla")
    ∷ (".stl", "application/vnd.ms-pki.stl")
    ∷ (".stl", "application/x-navistyle")
    ∷ (".stp", "application/step")
    ∷ (".sv4cpio", "application/x-sv4cpio")
    ∷ (".sv4crc", "application/x-sv4crc")
    ∷ (".svf", "image/vnd.dwg")
    ∷ (".svf", "image/x-dwg")
    ∷ (".svr", "application/x-world")
    ∷ (".svr", "x-world/x-svr")
    ∷ (".swf", "application/x-shockwave-flash")
    ∷ (".t", "application/x-troff")
    ∷ (".talk", "text/x-speech")
    ∷ (".tar", "application/x-tar")
    ∷ (".tbk", "application/toolbook")
    ∷ (".tbk", "application/x-tbook")
    ∷ (".tcl", "application/x-tcl")
    ∷ (".tcl", "text/x-script.tcl")
    ∷ (".tcsh", "text/x-script.tcsh")
    ∷ (".tex", "application/x-tex")
    ∷ (".texi", "application/x-texinfo")
    ∷ (".texinfo", "application/x-texinfo")
    ∷ (".text", "application/plain")
    ∷ (".text", "text/plain")
    ∷ (".tgz", "application/gnutar")
    ∷ (".tgz", "application/x-compressed")
    ∷ (".tif", "image/tiff")
    ∷ (".tif", "image/x-tiff")
    ∷ (".tiff", "image/tiff")
    ∷ (".tiff", "image/x-tiff")
    ∷ (".tr", "application/x-troff")
    ∷ (".tsi", "audio/tsp-audio")
    ∷ (".tsp", "application/dsptype")
    ∷ (".tsp", "audio/tsplayer")
    ∷ (".tsv", "text/tab-separated-values")
    ∷ (".turbot", "image/florian")
    ∷ (".txt", "text/plain")
    ∷ (".uil", "text/x-uil")
    ∷ []
