-- ===== src/Http.antt =====
-- webmon/http.cpp and webmon/http.h: the monitor's web server.
pub mod Strings
pub mod Requests
pub mod QueryStrings
pub mod Responses
pub mod Json
pub mod JsonText
pub mod Routes
pub mod Client
pub mod Examples
