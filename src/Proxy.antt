-- ===== src/Proxy.antt =====
-- internal/proxy/reverse_proxy.go: the reverse proxy of a service and the manager of the proxies.
-- `httputil.ReverseProxy` and `http.TimeoutHandler` are left to do what they document: the proxy
-- sends what the director made of the request, and calls the error handler where it gets no
-- response.
pub mod Balancer
pub mod Headers
pub mod Serve
pub mod Manager
