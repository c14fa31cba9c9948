-- ===== src/Upload/Parts/Assembly.antt =====
-- es3/uploader.cpp: the tasks of one file against the specification of its parts.
use extremes.Upload.Parts.{Upload}
