-- ===== src/FastCgi.antt =====
-- src/fastcgi.c, src/fastcgi.h: the parameters of a request, and the records of a response.
pub mod Params
pub mod Response
mod Tests
