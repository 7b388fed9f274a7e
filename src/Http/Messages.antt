-- ===== src/Http/Messages.antt =====
-- check_for_http of io_monitor/check_for_http.cpp: which messages are reported.
use io_monitor.Prelude.{
  ℕ, ◌+◌, ◌<◌, ℤ, pos, ltb, ◌&&◌, Bool, true, ◌||◌, some, [], ◌∷◌, ◌++◌, Bytes, codes, length,
  starts_with, has_substring, ◌==◌, if◌then◌else◌, ◌≡◌, refl, ap, ◌∙◌, arith,
}
use io_monitor.Domain.{domain_value, file_write}
use io_monitor.Op.{http_req_send, http_req_recv, http_resp_send, http_resp_recv}
use io_monitor.Record.{str_len, path_max}
use io_monitor.Http.{
  Unset, reports, nothing, in_range, code_of, reads_past, is_request, http_intercept, first_line,
  judge, after_loop, check_for_http,
}
use io_monitor.Http.Scanning.{IsText, scan-lines, scan-cut}

-- A method with the blank behind it.
pub data IsMethod : Bytes → Type 0 where
  of_get : IsMethod (codes "GET ")
  of_put : IsMethod (codes "PUT ")
  of_head : IsMethod (codes "HEAD ")
  of_post : IsMethod (codes "POST ")
  of_delete : IsMethod (codes "DELETE ")

-- `GET /index HTTP/1.1`, in its parts.
abbrev pub request_line : Bytes → Bytes → Bytes → Bytes
request_line method target version = method ++ (target ++ (codes " HTTP/" ++ version))

is_request-IsMethod : (method rest : Bytes) → IsMethod method → is_request (method ++ rest) ≡ true
unfolding is_request starts_with
is_request-IsMethod method rest of_get = refl
is_request-IsMethod method rest of_put = refl
is_request-IsMethod method rest of_head = refl
is_request-IsMethod method rest of_post = refl
is_request-IsMethod method rest of_delete = refl

or_true : (b : Bool) → (b || true) ≡ true
or_true b = ground arith

has_substring-behind : (s t p : Bytes) → has_substring t p ≡ true → has_substring (s ++ t) p ≡ true
unfolding has_substring
has_substring-behind [] t p h = h
has_substring-behind (c ∷ s) t p h =
    rw (has_substring-behind s t p h) (or_true (starts_with p (c ∷ (s ++ t))))

has_substring-protocol :
    (version : Bytes) → has_substring (codes " HTTP/" ++ version) (codes "HTTP") ≡ true
unfolding has_substring starts_with
has_substring-protocol version = refl

has_substring-request_line :
    (method target version : Bytes)
    → has_substring (request_line method target version) (codes "HTTP") ≡ true
has_substring-request_line method target version =
    has_substring-behind method _ (codes "HTTP")
      (has_substring-behind target _ (codes "HTTP") (has_substring-protocol version))

first_line-request_line :
    (u : Unset) (method rest : Bytes)
    → IsMethod method
    → first_line u (method ++ rest) ≡ method ++ rest
first_line-request_line u method rest of_get = refl
first_line-request_line u method rest of_put = refl
first_line-request_line u method rest of_head = refl
first_line-request_line u method rest of_post = refl
first_line-request_line u method rest of_delete = refl

judge-request_line :
    (u : Unset) (dom : ℕ) (fd : ℤ) (times : (ℤ × ℤ) × (ℤ × ℤ)) (method target version : Bytes)
    → IsMethod method
    → judge u dom fd times (request_line method target version)
      ≡ reports (
          http_intercept
            (if dom == domain_value file_write then http_req_send else http_req_recv)
            fd
            (request_line method target version)
            times)
unfolding judge
judge-request_line u dom fd times method target version m =
    rw
      (
        has_substring-request_line method target version,
        is_request-IsMethod method (target ++ (codes " HTTP/" ++ version)) m,
      )
      refl

-- A text that begins with a request line, whatever the method of the five, and a second line, each ended
-- by a carriage return and a newline and shorter than the array for it, is reported as a request that
-- was sent, if the process wrote it, or received, with the request line as its path.
pub check_for_http-request :
    (u : Unset) (dom : ℕ) (fd : ℤ) (method target version line2 more : Bytes) (behind : ℕ)
    (times : (ℤ × ℤ) × (ℤ × ℤ))
    → IsMethod method
    → IsText (request_line method target version)
    → IsText line2
    → length (request_line method target version) < path_max
    → length line2 + 1 < str_len
    → check_for_http u dom fd
        (request_line method target version ++ (13 ∷ 10 ∷ (line2 ++ (13 ∷ 10 ∷ more))))
        behind
        times
      ≡ reports (
          http_intercept
            (if dom == domain_value file_write then http_req_send else http_req_recv)
            fd
            (request_line method target version)
            times)
unfolding check_for_http after_loop
check_for_http-request u dom fd method target version line2 more behind times m t1 t2 h1 h2 =
    ap (after_loop u dom fd times)
      (scan-lines behind (request_line method target version) line2 more t1 t2 h1 h2)
    ∙ ap (judge u dom fd times) (first_line-request_line u method _ m)
    ∙ judge-request_line u dom fd times method target version m

-- `HTTP/1.1 200 OK`: the protocol and what is behind it.
abbrev pub status_line : Bytes → Bytes
status_line rest = codes "HTTP/1" ++ rest

code_of-some :
    (u : Unset) (text : Bytes) (code : ℤ) → u.sscanf text ≡ some code → code_of u text ≡ code
code_of-some u text code e = rw (e, code_of) refl

in_range_lem : (code : ℕ) → in_range (pos code) ≡ (ltb 99 code && ltb code 1000)
in_range_lem code = ground arith

judge-status_line :
    (u : Unset) (dom : ℕ) (fd : ℤ) (times : (ℤ × ℤ) × (ℤ × ℤ)) (rest : Bytes) (code : ℕ)
    → u.sscanf (status_line rest) ≡ some (pos code)
    → judge u dom fd times (status_line rest) ≡ (
        if ltb 99 code && ltb code 1000
        then reports (
            http_intercept
              (if dom == domain_value file_write then http_resp_send else http_resp_recv)
              fd
              (status_line rest)
              times)
        else nothing)
unfolding judge has_substring starts_with is_request
judge-status_line u dom fd times rest code e =
    ap
      (λ b.
        if b
        then reports (
            http_intercept
              (if dom == domain_value file_write then http_resp_send else http_resp_recv) fd
              (status_line rest) times)
        else nothing)
      (ap in_range (code_of-some u (status_line rest) (pos code) e) ∙ in_range_lem code)

-- A text that begins with a line of `HTTP/1` and anything behind it, in which sscanf reads the number
-- `code`, and a second line, each ended by a carriage return and a newline and shorter than the array
-- for it, is reported as a response that was sent, if the process wrote it, or received, with the first
-- line as its path, when `code` is from 100 to 999; otherwise nothing is reported.
pub check_for_http-response :
    (u : Unset) (dom : ℕ) (fd : ℤ) (rest line2 more : Bytes) (code behind : ℕ)
    (times : (ℤ × ℤ) × (ℤ × ℤ))
    → u.sscanf (status_line rest) ≡ some (pos code)
    → IsText (status_line rest)
    → IsText line2
    → length (status_line rest) < path_max
    → length line2 + 1 < str_len
    → check_for_http u dom fd
        (status_line rest ++ (13 ∷ 10 ∷ (line2 ++ (13 ∷ 10 ∷ more))))
        behind
        times
      ≡ (if ltb 99 code && ltb code 1000
          then reports (
              http_intercept
                (if dom == domain_value file_write then http_resp_send else http_resp_recv)
                fd
                (status_line rest)
                times)
          else nothing)
unfolding check_for_http after_loop
check_for_http-response u dom fd rest line2 more code behind times e t1 t2 h1 h2 =
    ap (after_loop u dom fd times) (scan-lines behind (status_line rest) line2 more t1 t2 h1 h2)
    ∙ judge-status_line u dom fd times rest code e

-- When the bytes end between the carriage return and the newline of the first line, and a newline
-- happens to lie behind them, the loop steps over their end and reads on.
check_for_http-cut :
    (u : Unset) (dom : ℕ) (fd : ℤ) (line1 : Bytes) (times : (ℤ × ℤ) × (ℤ × ℤ))
    → IsText line1
    → length line1 < path_max
    → check_for_http u dom fd (line1 ++ (13 ∷ [])) 10 times ≡ reads_past
unfolding check_for_http after_loop
check_for_http-cut u dom fd line1 times t h = ap (after_loop u dom fd times) (scan-cut line1 t h)
