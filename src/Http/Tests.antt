-- ===== src/Http/Tests.antt =====
-- Messages to try check_for_http of io_monitor/check_for_http.cpp on.
use io_monitor.Prelude.{
  ℤ, pos, ltb, ◌&&◌, some, [], ◌∷◌, ◌++◌, Bytes, codes, any, ◌==◌, ◌||◌, false, if◌then◌else◌, ◌≡◌,
  refl, arith,
}
use io_monitor.Domain.{domain_value, file_write}
use io_monitor.Op.{http_req_send, http_req_recv, http_resp_send, http_resp_recv}
use io_monitor.Http.{Unset, nothing, reports, http_intercept, check_for_http}
use io_monitor.Http.Scanning.{IsText}
use io_monitor.Http.Messages.{
  of_get, request_line, check_for_http-request, status_line, check_for_http-response,
}

abbrev garbage : Unset
garbage = record { unset = codes "?"; resp_code = pos 0; sscanf = λ text. some (pos 200) }

abbrev times : (ℤ × ℤ) × (ℤ × ℤ)
times = ((pos 1, pos 0), (pos 1, pos 9))

-- A response.
response :
    check_for_http garbage 12
      (pos 4)
      (codes "HTTP/1.1 200 OK" ++ (13 ∷ 10 ∷ (codes "A: b" ++ (13 ∷ 10 ∷ []))))
      0
      times
    ≡ reports (http_intercept http_resp_recv (pos 4) (codes "HTTP/1.1 200 OK") times)
unfolding check_for_http domain_value
response = refl

-- What is no message.
other : check_for_http garbage 12 (pos 4) (codes "hello") 0 times ≡ nothing
unfolding check_for_http domain_value
other = refl

is_text : (s : Bytes) → any (λ c. c == 0 || c == 13) s ≡ false → IsText s
is_text [] h = tt
is_text (c ∷ s) h = ((ground (arith, h), ground (arith, h)), is_text s (ground (arith, h)))

request_example :
    check_for_http garbage 11
      (pos 4)
      (request_line (codes "GET ") (codes "/x") (codes "1.1")
        ++ (13 ∷ 10 ∷ (codes "Host: h" ++ (13 ∷ 10 ∷ []))))
      0
      times
    ≡ reports (
        http_intercept
          (if 11 == domain_value file_write then http_req_send else http_req_recv)
          (pos 4)
          (request_line (codes "GET ") (codes "/x") (codes "1.1"))
          times)
request_example =
    check_for_http-request garbage 11 (pos 4) (codes "GET ") (codes "/x") (codes "1.1")
      (codes "Host: h") [] 0 times of_get (is_text (codes "GET /x HTTP/1.1") refl)
      (is_text (codes "Host: h") refl) (omega arith) (omega arith)

response_example :
    check_for_http garbage 11
      (pos 4)
      (status_line (codes ".1 200 OK") ++ (13 ∷ 10 ∷ (codes "A: b" ++ (13 ∷ 10 ∷ []))))
      0
      times
    ≡ (if ltb 99 200 && ltb 200 1000
        then reports (
            http_intercept
              (if 11 == domain_value file_write then http_resp_send else http_resp_recv)
              (pos 4)
              (status_line (codes ".1 200 OK"))
              times)
        else nothing)
response_example =
    check_for_http-response garbage 11 (pos 4) (codes ".1 200 OK") (codes "A: b") [] 200 0 times
      refl (is_text (codes "HTTP/1.1 200 OK") refl) (is_text (codes "A: b") refl) (omega arith)
      (omega arith)
