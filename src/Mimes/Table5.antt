-- ===== src/Mimes/Table5.antt =====
-- es3/mimes.cpp: the assignments of `init_mimes`, part 5 of 5.
use extremes.Base.{List, [], ◌∷◌, String}

abbrev pub table5 : List (String × String)
table5 =
    (".uni", "text/uri-list")
    ∷ (".unis", "text/uri-list")
    ∷ (".unv", "application/i-deas")
    ∷ (".uri", "text/uri-list")
    ∷ (".uris", "text/uri-list")
    ∷ (".ustar", "application/x-ustar")
    ∷ (".ustar", "multipart/x-ustar")
    ∷ (".uu", "application/octet-stream")
    ∷ (".uu", "text/x-uuencode")
    ∷ (".uue", "text/x-uuencode")
    ∷ (".vcd", "application/x-cdlink")
    ∷ (".vcs", "text/x-vcalendar")
    ∷ (".vda", "application/vda")
    ∷ (".vdo", "video/vdo")
    ∷ (".vew ", "application/groupwise")
    ∷ (".viv", "video/vivo")
    ∷ (".viv", "video/vnd.vivo")
    ∷ (".vivo", "video/vivo")
    ∷ (".vivo", "video/vnd.vivo")
    ∷ (".vmd ", "application/vocaltec-media-desc")
    ∷ (".vmf", "application/vocaltec-media-file")
    ∷ (".voc", "audio/voc")
    ∷ (".voc", "audio/x-voc")
    ∷ (".vos", "video/vosaic")
    ∷ (".vox", "audio/voxware")
    ∷ (".vqe", "audio/x-twinvq-plugin")
    ∷ (".vqf", "audio/x-twinvq")
    ∷ (".vql", "audio/x-twinvq-plugin")
    ∷ (".vrml", "application/x-vrml")
    ∷ (".vrml", "model/vrml")
    ∷ (".vrml", "x-world/x-vrml")
    ∷ (".vrt", "x-world/x-vrt")
    ∷ (".vsd", "application/x-visio")
    ∷ (".vst", "application/x-visio")
    ∷ (".vsw ", "application/x-visio")
    ∷ (".w60", "application/wordperfect6.0")
    ∷ (".w61", "application/wordperfect6.1")
    ∷ (".w6w", "application/msword")
    ∷ (".wav", "audio/wav")
    ∷ (".wav", "audio/x-wav")
    ∷ (".wb1", "application/x-qpro")
    ∷ (".wbmp", "image/vnd.wap.wbmp")
    ∷ (".web", "application/vnd.xara")
    ∷ (".wiz", "application/msword")
    ∷ (".wk1", "application/x-123")
    ∷ (".wmf", "windows/metafile")
    ∷ (".wml", "text/vnd.wap.wml")
    ∷ (".wmlc ", "application/vnd.wap.wmlc")
    ∷ (".wmls", "text/vnd.wap.wmlscript")
    ∷ (".wmlsc ", "application/vnd.wap.wmlscriptc")
    ∷ (".word ", "application/msword")
    ∷ (".wp", "application/wordperfect")
    ∷ (".wp5", "application/wordperfect")
    ∷ (".wp5", "application/wordperfect6.0")
    ∷ (".wp6 ", "application/wordperfect")
    ∷ (".wpd", "application/wordperfect")
    ∷ (".wpd", "application/x-wpwin")
    ∷ (".wq1", "application/x-lotus")
    ∷ (".wri", "application/mswrite")
    ∷ (".wri", "application/x-wri")
    ∷ (".wrl", "application/x-world")
    ∷ (".wrl", "model/vrml")
    ∷ (".wrl", "x-world/x-vrml")
    ∷ (".wrz", "model/vrml")
    ∷ (".wrz", "x-world/x-vrml")
    ∷ (".wsc", "text/scriplet")
    ∷ (".wsrc", "application/x-wais-source")
    ∷ (".wtk ", "application/x-wintalk")
    ∷ (".xbm", "image/x-xbitmap")
    ∷ (".xbm", "image/x-xbm")
    ∷ (".xbm", "image/xbm")
    ∷ (".xdr", "video/x-amt-demorun")
    ∷ (".xgz", "xgl/drawing")
    ∷ (".xif", "image/vnd.xiff")
    ∷ (".xl", "application/excel")
    ∷ (".xla", "application/excel")
    ∷ (".xla", "application/x-excel")
    ∷ (".xla", "application/x-msexcel")
    ∷ (".xlb", "application/excel")
    ∷ (".xlb", "application/vnd.ms-excel")
    ∷ (".xlb", "application/x-excel")
    ∷ (".xlc", "application/excel")
    ∷ (".xlc", "application/vnd.ms-excel")
    ∷ (".xlc", "application/x-excel")
    ∷ (".xld ", "application/excel")
    ∷ (".xld ", "application/x-excel")
    ∷ (".xlk", "application/excel")
    ∷ (".xlk", "application/x-excel")
    ∷ (".xll", "application/excel")
    ∷ (".xll", "application/vnd.ms-excel")
    ∷ (".xll", "application/x-excel")
    ∷ (".xlm", "application/excel")
    ∷ (".xlm", "application/vnd.ms-excel")
    ∷ (".xlm", "application/x-excel")
    ∷ (".xls", "application/excel")
    ∷ (".xls", "application/vnd.ms-excel")
    ∷ (".xls", "application/x-excel")
    ∷ (".xls", "application/x-msexcel")
    ∷ (".xlt", "application/excel")
    ∷ (".xlt", "application/x-excel")
    ∷ (".xlv", "application/excel")
    ∷ (".xlv", "application/x-excel")
    ∷ (".xlw", "application/excel")
    ∷ (".xlw", "application/vnd.ms-excel")
    ∷ (".xlw", "application/x-excel")
    ∷ (".xlw", "application/x-msexcel")
    ∷ (".xm", "audio/xm")
    ∷ (".xml", "application/xml")
    ∷ (".xml", "text/xml")
    ∷ (".xmz", "xgl/movie")
    ∷ (".xpix", "application/x-vnd.ls-xpix")
    ∷ (".xpm", "image/x-xpixmap")
    ∷ (".xpm", "image/xpm")
    ∷ (".x-png", "image/png")
    ∷ (".xsr", "video/x-amt-showrun")
    ∷ (".xwd", "image/x-xwd")
    ∷ (".xwd", "image/x-xwindowdump")
    ∷ (".xyz", "chemical/x-pdb")
    ∷ (".z", "application/x-compress")
    ∷ (".z", "application/x-compressed")
    ∷ (".zip", "application/x-compressed")
    ∷ (".zip", "application/x-zip-compressed")
    ∷ (".zip", "application/zip")
    ∷ (".zip", "multipart/x-zip")
    ∷ (".zoo", "application/octet-stream")
    ∷ (".zsh", "text/x-script.zsh")
    ∷ []
