-- ===== src/Hysteria2/Qpack/Static.antt =====
-- The static table of QPACK (src/proxy/outbound/hysteria2/qpack.rs: QPACK_STATIC_TABLE).
use Prim.Native.Char.{code}
use Prim.Native.String.{String}
use quic_proxy.Common.{List, [], ◌∷◌}
use quic_proxy.Common.Bytes.{Bytes}

-- The bytes of an ASCII literal.
abbrev pub text : String → Bytes
text String.[] = []
text (String.◌∷◌ c s) = code c ∷ text s

-- Name and value, the row is the index.
abbrev pub qpack_static_table : List (Bytes × Bytes)
qpack_static_table =
    (text ":authority", text "")
    ∷ (text ":path", text "/")
    ∷ (text "age", text "0")
    ∷ (text "content-disposition", text "")
    ∷ (text "content-length", text "0")
    ∷ (text "cookie", text "")
    ∷ (text "date", text "")
    ∷ (text "etag", text "")
    ∷ (text "if-modified-since", text "")
    ∷ (text "if-none-match", text "")
    ∷ (text "last-modified", text "")
    ∷ (text "link", text "")
    ∷ (text "location", text "")
    ∷ (text "referer", text "")
    ∷ (text "set-cookie", text "")
    ∷ (text ":method", text "CONNECT")
    ∷ (text ":method", text "DELETE")
    ∷ (text ":method", text "GET")
    ∷ (text ":method", text "HEAD")
    ∷ (text ":method", text "OPTIONS")
    ∷ (text ":method", text "POST")
    ∷ (text ":method", text "PUT")
    ∷ (text ":scheme", text "http")
    ∷ (text ":scheme", text "https")
    ∷ (text ":status", text "103")
    ∷ (text ":status", text "200")
    ∷ (text ":status", text "304")
    ∷ (text ":status", text "404")
    ∷ (text ":status", text "503")
    ∷ (text "accept", text "*/*")
    ∷ (text "accept", text "application/dns-message")
    ∷ (text "accept-encoding", text "gzip, deflate, br")
    ∷ (text "accept-ranges", text "bytes")
    ∷ (text "access-control-allow-headers", text "cache-control")
    ∷ (text "access-control-allow-headers", text "content-type")
    ∷ (text "access-control-allow-origin", text "*")
    ∷ (text "cache-control", text "max-age=0")
    ∷ (text "cache-control", text "max-age=2592000")
    ∷ (text "cache-control", text "max-age=604800")
    ∷ (text "cache-control", text "no-cache")
    ∷ (text "cache-control", text "no-store")
    ∷ (text "cache-control", text "public, max-age=31536000")
    ∷ (text "content-encoding", text "br")
    ∷ (text "content-encoding", text "gzip")
    ∷ (text "content-type", text "application/dns-message")
    ∷ (text "content-type", text "application/javascript")
    ∷ (text "content-type", text "application/json")
    ∷ (text "content-type", text "application/x-www-form-urlencoded")
    ∷ (text "content-type", text "image/gif")
    ∷ (text "content-type", text "image/jpeg")
    ∷ (text "content-type", text "image/png")
    ∷ (text "content-type", text "text/css")
    ∷ (text "content-type", text "text/html; charset=utf-8")
    ∷ (text "content-type", text "text/plain")
    ∷ (text "content-type", text "text/plain;charset=utf-8")
    ∷ (text "range", text "bytes=0-")
    ∷ (text "strict-transport-security", text "max-age=31536000")
    ∷ (text "strict-transport-security", text "max-age=31536000; includesubdomains")
    ∷ (text "strict-transport-security", text "max-age=31536000; includesubdomains; preload")
    ∷ (text "vary", text "accept-encoding")
    ∷ (text "vary", text "origin")
    ∷ (text "x-content-type-options", text "nosniff")
    ∷ (text "x-xss-protection", text "1; mode=block")
    ∷ (text ":status", text "100")
    ∷ (text ":status", text "204")
    ∷ (text ":status", text "206")
    ∷ (text ":status", text "302")
    ∷ (text ":status", text "400")
    ∷ (text ":status", text "403")
    ∷ (text ":status", text "421")
    ∷ (text ":status", text "425")
    ∷ (text ":status", text "500")
    ∷ (text "accept-language", text "")
    ∷ (text "access-control-allow-credentials", text "FALSE")
    ∷ (text "access-control-allow-credentials", text "TRUE")
    ∷ (text "access-control-allow-headers", text "*")
    ∷ (text "access-control-allow-methods", text "get")
    ∷ (text "access-control-allow-methods", text "get, post, options")
    ∷ (text "access-control-allow-methods", text "options")
    ∷ (text "access-control-expose-headers", text "content-length")
    ∷ (text "access-control-request-headers", text "content-type")
    ∷ (text "access-control-request-method", text "get")
    ∷ (text "access-control-request-method", text "post")
    ∷ (text "alt-svc", text "clear")
    ∷ (text "authorization", text "")
    ∷ (text "content-security-policy", text "script-src 'none'; object-src 'none'; base-uri 'none'")
    ∷ (text "early-data", text "1")
    ∷ (text "expect-ct", text "")
    ∷ (text "forwarded", text "")
    ∷ (text "if-range", text "")
    ∷ (text "origin", text "")
    ∷ (text "purpose", text "prefetch")
    ∷ (text "server", text "")
    ∷ (text "timing-allow-origin", text "*")
    ∷ (text "upgrade-insecure-requests", text "1")
    ∷ (text "user-agent", text "")
    ∷ (text "x-forwarded-for", text "")
    ∷ (text "x-frame-options", text "deny")
    ∷ (text "x-frame-options", text "sameorigin")
    ∷ []
