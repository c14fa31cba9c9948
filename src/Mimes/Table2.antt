-- ===== src/Mimes/Table2.antt =====
-- es3/mimes.cpp: the assignments of `init_mimes`, part 2 of 5.
use extremes.Base.{List, [], ◌∷◌, String}

abbrev pub table2 : List (String × String)
table2 =
    (".fif", "application/fractals")
    ∷ (".fif", "image/fif")
    ∷ (".fli", "video/fli")
    ∷ (".fli", "video/x-fli")
    ∷ (".flo", "image/florian")
    ∷ (".flx", "text/vnd.fmi.flexstor")
    ∷ (".fmf", "video/x-atomic3d-feature")
    ∷ (".for", "text/plain")
    ∷ (".for", "text/x-fortran")
    ∷ (".fpx", "image/vnd.fpx")
    ∷ (".fpx", "image/vnd.net-fpx")
    ∷ (".frl", "application/freeloader")
    ∷ (".funk", "audio/make")
    ∷ (".g", "text/plain")
    ∷ (".g3", "image/g3fax")
    ∷ (".gif", "image/gif")
    ∷ (".gl", "video/gl")
    ∷ (".gl", "video/x-gl")
    ∷ (".gsd", "audio/x-gsm")
    ∷ (".gsm", "audio/x-gsm")
    ∷ (".gsp", "application/x-gsp")
    ∷ (".gss", "application/x-gss")
    ∷ (".gtar", "application/x-gtar")
    ∷ (".gz", "application/x-compressed")
    ∷ (".gz", "application/x-gzip")
    ∷ (".gzip", "application/x-gzip")
    ∷ (".gzip", "multipart/x-gzip")
    ∷ (".h", "text/plain")
    ∷ (".h", "text/x-h")
    ∷ (".hdf", "application/x-hdf")
    ∷ (".help", "application/x-helpfile")
    ∷ (".hgl", "application/vnd.hp-hpgl")
    ∷ (".hh", "text/plain")
    ∷ (".hh", "text/x-h")
    ∷ (".hlb", "text/x-script")
    ∷ (".hlp", "application/hlp")
    ∷ (".hlp", "application/x-helpfile")
    ∷ (".hlp", "application/x-winhelp")
    ∷ (".hpg", "application/vnd.hp-hpgl")
    ∷ (".hpgl", "application/vnd.hp-hpgl")
    ∷ (".hqx", "application/binhex")
    ∷ (".hqx", "application/binhex4")
    ∷ (".hqx", "application/mac-binhex")
    ∷ (".hqx", "application/mac-binhex40")
    ∷ (".hqx", "application/x-binhex40")
    ∷ (".hqx", "application/x-mac-binhex40")
    ∷ (".hta", "application/hta")
    ∷ (".htc", "text/x-component")
    ∷ (".htm", "text/html")
    ∷ (".html", "text/html")
    ∷ (".htmls", "text/html")
    ∷ (".htt", "text/webviewhtml")
    ∷ (".htx ", "text/html")
    ∷ (".ice ", "x-conference/x-cooltalk")
    ∷ (".ico", "image/x-icon")
    ∷ (".idc", "text/plain")
    ∷ (".ief", "image/ief")
    ∷ (".iefs", "image/ief")
    ∷ (".iges", "application/iges")
    ∷ (".iges ", "model/iges")
    ∷ (".igs", "application/iges")
    ∷ (".igs", "model/iges")
    ∷ (".ima", "application/x-ima")
    ∷ (".imap", "application/x-httpd-imap")
    ∷ (".inf ", "application/inf")
    ∷ (".ins", "application/x-internett-signup")
    ∷ (".ip ", "application/x-ip2")
    ∷ (".isu", "video/x-isvideo")
    ∷ (".it", "audio/it")
    ∷ (".iv", "application/x-inventor")
    ∷ (".ivr", "i-world/i-vrml")
    ∷ (".ivy", "application/x-livescreen")
    ∷ (".jam ", "audio/x-jam")
    ∷ (".jav", "text/plain")
    ∷ (".jav", "text/x-java-source")
    ∷ (".java", "text/plain")
    ∷ (".java ", "text/x-java-source")
    ∷ (".jcm ", "application/x-java-commerce")
    ∷ (".jfif", "image/jpeg")
    ∷ (".jfif", "image/pjpeg")
    ∷ (".jfif-tbnl", "image/jpeg")
    ∷ (".jpe", "image/jpeg")
    ∷ (".jpe", "image/pjpeg")
    ∷ (".jpeg", "image/jpeg")
    ∷ (".jpeg", "image/pjpeg")
    ∷ (".jpg ", "image/jpeg")
    ∷ (".jpg ", "image/pjpeg")
    ∷ (".jps", "image/x-jps")
    ∷ (".js ", "application/x-javascript")
    ∷ (".jut", "image/jutvision")
    ∷ (".kar", "audio/midi")
    ∷ (".kar", "music/x-karaoke")
    ∷ (".ksh", "application/x-ksh")
    ∷ (".ksh", "text/x-script.ksh")
    ∷ (".la ", "audio/nspaudio")
    ∷ (".la ", "audio/x-nspaudio")
    ∷ (".lam", "audio/x-liveaudio")
    ∷ (".latex ", "application/x-latex")
    ∷ (".lha", "application/lha")
    ∷ (".lha", "application/octet-stream")
    ∷ (".lha", "application/x-lha")
    ∷ (".lhx", "application/octet-stream")
    ∷ (".list", "text/plain")
    ∷ (".lma", "audio/nspaudio")
    ∷ (".lma", "audio/x-nspaudio")
    ∷ (".log ", "text/plain")
    ∷ (".lsp ", "application/x-lisp")
    ∷ (".lsp ", "text/x-script.lisp")
    ∷ (".lst ", "text/plain")
    ∷ (".lsx", "text/x-la-asf")
    ∷ (".ltx", "application/x-latex")
    ∷ (".lzh", "application/octet-stream")
    ∷ (".lzh", "application/x-lzh")
    ∷ (".lzx", "application/lzx")
    ∷ (".lzx", "application/octet-stream")
    ∷ (".lzx", "application/x-lzx")
    ∷ (".m", "text/plain")
    ∷ (".m", "text/x-m")
    ∷ (".m1v", "video/mpeg")
    ∷ (".m2a", "audio/mpeg")
    ∷ (".m2v", "video/mpeg")
    ∷ (".m3u ", "audio/x-mpequrl")
    ∷ (".man", "application/x-troff-man")
    ∷ (".map", "application/x-navimap")
    ∷ (".mar", "text/plain")
    ∷ (".mbd", "application/mbedlet")
    ∷ (".mc$", "application/x-magic-cap-package-1.0")
    ∷ (".mcd", "application/mcad")
    ∷ (".mcd", "application/x-mathcad")
    ∷ []
