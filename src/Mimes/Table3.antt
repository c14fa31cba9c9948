-- ===== src/Mimes/Table3.antt =====
-- es3/mimes.cpp: the assignments of `init_mimes`, part 3 of 5.
use extremes.Base.{List, [], ◌∷◌, String}

abbrev pub table3 : List (String × String)
table3 =
    (".mcf", "image/vasa")
    ∷ (".mcf", "text/mcf")
    ∷ (".mcp", "application/netmc")
    ∷ (".me ", "application/x-troff-me")
    ∷ (".mht", "message/rfc822")
    ∷ (".mhtml", "message/rfc822")
    ∷ (".mid", "application/x-midi")
    ∷ (".mid", "audio/midi")
    ∷ (".mid", "audio/x-mid")
    ∷ (".mid", "audio/x-midi")
    ∷ (".mid", "music/crescendo")
    ∷ (".mid", "x-music/x-midi")
    ∷ (".midi", "application/x-midi")
    ∷ (".midi", "audio/midi")
    ∷ (".midi", "audio/x-mid")
    ∷ (".midi", "audio/x-midi")
    ∷ (".midi", "music/crescendo")
    ∷ (".midi", "x-music/x-midi")
    ∷ (".mif", "application/x-frame")
    ∷ (".mif", "application/x-mif")
    ∷ (".mime ", "message/rfc822")
    ∷ (".mime ", "www/mime")
    ∷ (".mjf", "audio/x-vnd.audioexplosion.mjuicemediafile")
    ∷ (".mjpg ", "video/x-motion-jpeg")
    ∷ (".mm", "application/base64")
    ∷ (".mm", "application/x-meme")
    ∷ (".mme", "application/base64")
    ∷ (".mod", "audio/mod")
    ∷ (".mod", "audio/x-mod")
    ∷ (".moov", "video/quicktime")
    ∷ (".mov", "video/quicktime")
    ∷ (".movie", "video/x-sgi-movie")
    ∷ (".mp2", "audio/mpeg")
    ∷ (".mp2", "audio/x-mpeg")
    ∷ (".mp2", "video/mpeg")
    ∷ (".mp2", "video/x-mpeg")
    ∷ (".mp2", "video/x-mpeq2a")
    ∷ (".mp3", "audio/mpeg3")
    ∷ (".mp3", "audio/x-mpeg-3")
    ∷ (".mp3", "video/mpeg")
    ∷ (".mp3", "video/x-mpeg")
    ∷ (".mpa", "audio/mpeg")
    ∷ (".mpa", "video/mpeg")
    ∷ (".mpc", "application/x-project")
    ∷ (".mpe", "video/mpeg")
    ∷ (".mpeg", "video/mpeg")
    ∷ (".mpg", "audio/mpeg")
    ∷ (".mpg", "video/mpeg")
    ∷ (".mpga", "audio/mpeg")
    ∷ (".mpp", "application/vnd.ms-project")
    ∷ (".mpt", "application/x-project")
    ∷ (".mpv", "application/x-project")
    ∷ (".mpx", "application/x-project")
    ∷ (".mrc", "application/marc")
    ∷ (".ms", "application/x-troff-ms")
    ∷ (".mv", "video/x-sgi-movie")
    ∷ (".my", "audio/make")
    ∷ (".mzz", "application/x-vnd.audioexplosion.mzz")
    ∷ (".nap", "image/naplps")
    ∷ (".naplps", "image/naplps")
    ∷ (".nc", "application/x-netcdf")
    ∷ (".ncm", "application/vnd.nokia.configuration-message")
    ∷ (".nif", "image/x-niff")
    ∷ (".niff", "image/x-niff")
    ∷ (".nix", "application/x-mix-transfer")
    ∷ (".nsc", "application/x-conference")
    ∷ (".nvd", "application/x-navidoc")
    ∷ (".o", "application/octet-stream")
    ∷ (".oda", "application/oda")
    ∷ (".omc", "application/x-omc")
    ∷ (".omcd", "application/x-omcdatamaker")
    ∷ (".omcr", "application/x-omcregerator")
    ∷ (".p", "text/x-pascal")
    ∷ (".p10", "application/pkcs10")
    ∷ (".p10", "application/x-pkcs10")
    ∷ (".p12", "application/pkcs-12")
    ∷ (".p12", "application/x-pkcs12")
    ∷ (".p7a", "application/x-pkcs7-signature")
    ∷ (".p7c", "application/pkcs7-mime")
    ∷ (".p7c", "application/x-pkcs7-mime")
    ∷ (".p7m", "application/pkcs7-mime")
    ∷ (".p7m", "application/x-pkcs7-mime")
    ∷ (".p7r", "application/x-pkcs7-certreqresp")
    ∷ (".p7s", "application/pkcs7-signature")
    ∷ (".part ", "application/pro_eng")
    ∷ (".pas", "text/pascal")
    ∷ (".pbm ", "image/x-portable-bitmap")
    ∷ (".pcl", "application/vnd.hp-pcl")
    ∷ (".pcl", "application/x-pcl")
    ∷ (".pct", "image/x-pict")
    ∷ (".pcx", "image/x-pcx")
    ∷ (".pdb", "chemical/x-pdb")
    ∷ (".pdf", "application/pdf")
    ∷ (".pfunk", "audio/make")
    ∷ (".pfunk", "audio/make.my.funk")
    ∷ (".pgm", "image/x-portable-graymap")
    ∷ (".pgm", "image/x-portable-greymap")
    ∷ (".pic", "image/pict")
    ∷ (".pict", "image/pict")
    ∷ (".pkg", "application/x-newton-compatible-pkg")
    ∷ (".pko", "application/vnd.ms-pki.pko")
    ∷ (".pl", "text/plain")
    ∷ (".pl", "text/x-script.perl")
    ∷ (".plx", "application/x-pixclscript")
    ∷ (".pm", "image/x-xpixmap")
    ∷ (".pm", "text/x-script.perl-module")
    ∷ (".pm4 ", "application/x-pagemaker")
    ∷ (".pm5", "application/x-pagemaker")
    ∷ (".png", "image/png")
    ∷ (".pnm", "application/x-portable-anymap")
    ∷ (".pnm", "image/x-portable-anymap")
    ∷ (".pot", "application/mspowerpoint")
    ∷ (".pot", "application/vnd.ms-powerpoint")
    ∷ (".pov", "model/x-pov")
    ∷ (".ppa", "application/vnd.ms-powerpoint")
    ∷ (".ppm", "image/x-portable-pixmap")
    ∷ (".pps", "application/mspowerpoint")
    ∷ (".pps", "application/vnd.ms-powerpoint")
    ∷ (".ppt", "application/mspowerpoint")
    ∷ (".ppt", "application/powerpoint")
    ∷ (".ppt", "application/vnd.ms-powerpoint")
    ∷ (".ppt", "application/x-mspowerpoint")
    ∷ (".ppz", "application/mspowerpoint")
    ∷ (".pre", "application/x-freelance")
    ∷ (".prt", "application/pro_eng")
    ∷ (".ps", "application/postscript")
    ∷ (".psd", "application/octet-stream")
    ∷ (".pvu", "paleovu/x-pv")
    ∷ (".pwz ", "application/vnd.ms-powerpoint")
    ∷ []
