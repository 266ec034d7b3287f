-- ===== src/Http/Message.antt =====
-- src/protocol/http.h: headers, requests, responses and results; the ASCII helpers and
-- `BuildGetRequest` of http.cpp.
use titan_bench.Base.{
  ℕ, ◌+◌, ◌-◌, Bool, true, false, ◌&&◌, ◌||◌, List, [], ◌∷◌, ◌++◌, map, leb, ◌==◌, if◌then◌else◌, ℤ,
  pos, Bytes, codes, crlf, is_empty, same_text, is_space, skip_space,
}

pub record Header : Type 0 where
  pub key : Bytes
  pub value : Bytes

pub record Request : Type 0 where
  pub host : Bytes
  pub path : Bytes
  pub headers : List Header
  pub keep_alive : Bool

pub record Response : Type 0 where
  pub status_code : ℤ
  pub content_length : ℕ
  pub has_content_length : Bool
  pub header_done : Bool
  pub message_complete : Bool
  pub keep_alive : Bool

-- `Response {}`.
abbrev pub no_response : Response
no_response = record {
  status_code = pos 0;
  content_length = 0;
  has_content_length = false;
  header_done = false;
  message_complete = false;
  keep_alive = true;
}

pub data ResultStatus : Type 0 where
  k_ok k_parse_error k_timeout k_network_error k_incomplete : ResultStatus

lower_byte : ℕ → ℕ
lower_byte c = if leb b'A' c && leb c b'Z' then c - b'A' + b'a' else c

unfoldable pub to_lower_ascii : Bytes → Bytes
unfolding lower_byte
to_lower_ascii s = map lower_byte s

trim_right : Bytes → Bytes
unfolding is_space
trim_right [] = []
trim_right (c ∷ cs) =
    let rest = trim_right cs in if is_empty rest && is_space c then [] else c ∷ rest

unfoldable pub trim_ascii : Bytes → Bytes
unfolding trim_right skip_space
trim_ascii s = trim_right (skip_space s)

has_key : Bytes → List Header → Bool
has_key lower_key [] = false
has_key lower_key (h ∷ hs) = same_text (to_lower_ascii h.key) lower_key || has_key lower_key hs

unfoldable pub header_exists : List Header → Bytes → Bool
unfolding has_key to_lower_ascii
header_exists headers key = has_key (to_lower_ascii key) headers

-- The path as it is sent: never empty, and with a slash in front.
unfoldable pub sent_path : Bytes → Bytes
sent_path [] = b'/' ∷ []
sent_path (c ∷ cs) = if c == b'/' then c ∷ cs else b'/' ∷ c ∷ cs

-- One line of a header, with its end.
abbrev pub header_line : Header → Bytes
header_line h = h.key ++ (codes ": " ++ (h.value ++ crlf))

header_lines : List Header → Bytes
header_lines [] = []
header_lines (h ∷ hs) = header_line h ++ header_lines hs

unfoldable pub build_get_request : Request → Bytes
unfolding sent_path header_lines header_exists
build_get_request r =
    codes "GET "
    ++ (sent_path r.path
        ++ (codes " HTTP/1.1"
            ++ (crlf
                ++ (codes "Host: "
                    ++ (r.host
                        ++ (crlf
                            ++ (header_lines r.headers
                                ++ ((if has_key (codes "connection") r.headers
                                      then []
                                      else codes "Connection: "
                                        ++ ((if r.keep_alive
                                              then codes "keep-alive"
                                              else codes "close")
                                            ++ crlf))
                                    ++ ((if header_exists r.headers (codes "accept")
                                          then []
                                          else codes "Accept: */*" ++ crlf)
                                        ++ crlf)))))))))
