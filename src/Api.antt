-- ===== src/Api.antt =====
-- web/src/api/index.ts: replies of the server, the requests that the functions of the module send,
-- the request interceptor's headers and the response interceptor's redirect. axios, the browser's
-- location and `decodeURIComponent` are parameters.
mod Replies
pub mod Requests
pub mod Cookies
pub mod Interceptors
pub use Replies.*
