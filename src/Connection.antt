-- ===== src/Connection.antt =====
-- es3/connection.h and es3/connection.cpp: the requests to the server and what is made of its replies.
pub mod Xml
pub mod Headers
pub mod Requests
pub mod Errors
pub mod Listing
pub mod Callbacks
pub mod Transfers
