-- ===== src/Mimes/Table1.antt =====
-- es3/mimes.cpp: the assignments of `init_mimes`, part 1 of 5.
use extremes.Base.{List, [], ◌∷◌, String}

abbrev pub table1 : List (String × String)
table1 =
    (".3dm", "x-world/x-3dmf")
    ∷ (".3dmf", "x-world/x-3dmf")
    ∷ (".a", "application/octet-stream")
    ∷ (".aab", "application/x-authorware-bin")
    ∷ (".aam", "application/x-authorware-map")
    ∷ (".aas", "application/x-authorware-seg")
    ∷ (".abc", "text/vnd.abc")
    ∷ (".acgi", "text/html")
    ∷ (".afl", "video/animaflex")
    ∷ (".ai", "application/postscript")
    ∷ (".aif", "audio/aiff")
    ∷ (".aif", "audio/x-aiff")
    ∷ (".aifc", "audio/aiff")
    ∷ (".aifc", "audio/x-aiff")
    ∷ (".aiff", "audio/aiff")
    ∷ (".aiff", "audio/x-aiff")
    ∷ (".aim", "application/x-aim")
    ∷ (".aip", "text/x-audiosoft-intra")
    ∷ (".ani", "application/x-navi-animation")
    ∷ (".aos", "application/x-nokia-9000-communicator-add-on-software")
    ∷ (".aps", "application/mime")
    ∷ (".arc", "application/octet-stream")
    ∷ (".arj", "application/arj")
    ∷ (".arj", "application/octet-stream")
    ∷ (".art", "image/x-jg")
    ∷ (".asf", "video/x-ms-asf")
    ∷ (".asm", "text/x-asm")
    ∷ (".asp", "text/asp")
    ∷ (".asx", "application/x-mplayer2")
    ∷ (".asx", "video/x-ms-asf")
    ∷ (".asx", "video/x-ms-asf-plugin")
    ∷ (".au", "audio/basic")
    ∷ (".au", "audio/x-au")
    ∷ (".avi", "application/x-troff-msvideo")
    ∷ (".avi", "video/avi")
    ∷ (".avi", "video/msvideo")
    ∷ (".avi", "video/x-msvideo")
    ∷ (".avs", "video/avs-video")
    ∷ (".bcpio", "application/x-bcpio")
    ∷ (".bin", "application/mac-binary")
    ∷ (".bin", "application/macbinary")
    ∷ (".bin", "application/octet-stream")
    ∷ (".bin", "application/x-binary")
    ∷ (".bin", "application/x-macbinary")
    ∷ (".bm", "image/bmp")
    ∷ (".bmp", "image/bmp")
    ∷ (".bmp", "image/x-windows-bmp")
    ∷ (".boo", "application/book")
    ∷ (".book", "application/book")
    ∷ (".boz", "application/x-bzip2")
    ∷ (".bsh", "application/x-bsh")
    ∷ (".bz", "application/x-bzip")
    ∷ (".bz2", "application/x-bzip2")
    ∷ (".c", "text/plain")
    ∷ (".c", "text/x-c")
    ∷ (".c++", "text/plain")
    ∷ (".cat", "application/vnd.ms-pki.seccat")
    ∷ (".cc", "text/plain")
    ∷ (".cc", "text/x-c")
    ∷ (".ccad", "application/clariscad")
    ∷ (".cco", "application/x-cocoa")
    ∷ (".cdf", "application/cdf")
    ∷ (".cdf", "application/x-cdf")
    ∷ (".cdf", "application/x-netcdf")
    ∷ (".cer", "application/pkix-cert")
    ∷ (".cer", "application/x-x509-ca-cert")
    ∷ (".cha", "application/x-chat")
    ∷ (".chat", "application/x-chat")
    ∷ (".class", "application/java")
    ∷ (".class", "application/java-byte-code")
    ∷ (".class", "application/x-java-class")
    ∷ (".com", "application/octet-stream")
    ∷ (".com", "text/plain")
    ∷ (".conf", "text/plain")
    ∷ (".cpio", "application/x-cpio")
    ∷ (".cpp", "text/x-c")
    ∷ (".cpt", "application/mac-compactpro")
    ∷ (".cpt", "application/x-compactpro")
    ∷ (".cpt", "application/x-cpt")
    ∷ (".crl", "application/pkcs-crl")
    ∷ (".crl", "application/pkix-crl")
    ∷ (".crt", "application/pkix-cert")
    ∷ (".crt", "application/x-x509-ca-cert")
    ∷ (".crt", "application/x-x509-user-cert")
    ∷ (".csh", "application/x-csh")
    ∷ (".csh", "text/x-script.csh")
    ∷ (".css", "application/x-pointplus")
    ∷ (".css", "text/css")
    ∷ (".cxx", "text/plain")
    ∷ (".dcr", "application/x-director")
    ∷ (".deepv", "application/x-deepv")
    ∷ (".def", "text/plain")
    ∷ (".der", "application/x-x509-ca-cert")
    ∷ (".dif", "video/x-dv")
    ∷ (".dir", "application/x-director")
    ∷ (".dl", "video/dl")
    ∷ (".dl", "video/x-dl")
    ∷ (".doc", "application/msword")
    ∷ (".dot", "application/msword")
    ∷ (".dp", "application/commonground")
    ∷ (".drw", "application/drafting")
    ∷ (".dump", "application/octet-stream")
    ∷ (".dv", "video/x-dv")
    ∷ (".dvi", "application/x-dvi")
    ∷ (".dwf", "drawing/x-dwf (old)")
    ∷ (".dwf", "model/vnd.dwf")
    ∷ (".dwg", "application/acad")
    ∷ (".dwg", "image/vnd.dwg")
    ∷ (".dwg", "image/x-dwg")
    ∷ (".dxf", "application/dxf")
    ∷ (".dxf", "image/vnd.dwg")
    ∷ (".dxf", "image/x-dwg")
    ∷ (".dxr", "application/x-director")
    ∷ (".el", "text/x-script.elisp")
    ∷ (".elc", "application/x-bytecode.elisp (compiled elisp)")
    ∷ (".elc", "application/x-elc")
    ∷ (".env", "application/x-envoy")
    ∷ (".eps", "application/postscript")
    ∷ (".es", "application/x-esrehber")
    ∷ (".etx", "text/x-setext")
    ∷ (".evy", "application/envoy")
    ∷ (".evy", "application/x-envoy")
    ∷ (".exe", "application/octet-stream")
    ∷ (".f", "text/plain")
    ∷ (".f", "text/x-fortran")
    ∷ (".f77", "text/x-fortran")
    ∷ (".f90", "text/plain")
    ∷ (".f90", "text/x-fortran")
    ∷ (".fdf", "application/vnd.fdf")
    ∷ []
