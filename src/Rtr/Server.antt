-- ===== src/Rtr/Server.antt =====
-- rpki/rtr/server.py: what a server answers, from the files that the generator has written. `push_pdu`
-- and `push_file` append bytes to what is sent.
use rpki_net.Prelude.{
  ℕ, Bool, true, false, ◌||◌, not, List, [], ◌∷◌, ◌++◌, Option, none, some, ◌==◌, if◌then◌else◌,
}
use rpki_net.Result.{
  Result, ok, err, assertion_error, attribute_error, index_error, system_exit, guard, ◌>>=◌, ◌>>◌,
}
use rpki_net.Rtr.Pdu.{
  Pdu, serial_notify, serial_query, reset_query, cache_response, cache_reset, serial_content,
  nonce_content, empty_content, error_content, to_pdu,
}
use rpki_net.Rtr.Check.{make_end_of_data}
use rpki_net.Rtr.Text.{codes, decimal, make_error_report}

-- "%d.ix.%d.v%d" and "%d.ax.v%d"
pub data FileName : Type 0 where
  ixfr_file : (serial from_serial version : ℕ) → FileName
  axfr_file : (serial version : ℕ) → FileName

unfoldable pub file_text : FileName → List ℕ
file_text (ixfr_file serial from_serial version) =
    decimal serial ++ codes ".ix." ++ decimal from_serial ++ codes ".v" ++ decimal version
file_text (axfr_file serial version) = decimal serial ++ codes ".ax.v" ++ decimal version

abbrev pub file_version : FileName → ℕ
file_version (ixfr_file serial from_serial version) = version
file_version (axfr_file serial version) = version

-- The files that can be opened: of "current.v%d", the numbers in it; of the others, the content.
pub record Directory : Type 0 where
  pub current : ℕ → Option (List ℕ)
  pub file : FileName → Option (List ℕ)

-- `ServerChannel`; `version` is that of the reader.
pub record Server : Type 0 where
  pub version : Option ℕ
  pub current_serial : Option ℕ
  pub current_nonce : Option ℕ
  pub refresh : Option ℕ
  pub retry : Option ℕ
  pub expire : Option ℕ

-- What the numbers in "current.v%d" say; a file with a serial number alone has a nonce of zero.
abbrev pub current_values : Option (List ℕ) → Result (Option ℕ × Option ℕ)
current_values none = ok (none, none)
current_values (some []) = err index_error
current_values (some (serial ∷ [])) = ok (some serial, some 0)
current_values (some (serial ∷ nonce ∷ rest)) = ok (some serial, some nonce)

unfoldable pub read_current : Directory → Option ℕ → Result (Option ℕ × Option ℕ)
read_current dir none = ok (none, none)
read_current dir (some version) = current_values (dir.current version)

-- `write_current`: the numbers that are written.
abbrev pub write_current : ℕ → ℕ → ℕ → Directory → Directory
write_current serial nonce version dir = record dir {
  current = λ v. if v == version then some (serial ∷ nonce ∷ []) else dir.current v;
}

unfoldable pub get_serial : Directory → Server → Result Server
get_serial dir s = do
  (serial, nonce) ← read_current dir s.version
  ok (record s { current_serial = serial; current_nonce = nonce })

abbrev pub option_eq : Option ℕ → Option ℕ → Bool
option_eq none none = true
option_eq none (some b) = false
option_eq (some a) none = false
option_eq (some a) (some b) = a == b

unfoldable pub check_serial : Directory → Server → Result (Server × Bool)
check_serial dir s = do
  s' ← get_serial dir s
  ok (s', not (option_eq s.current_serial s'.current_serial))

-- A PDU as it is sent. One without a serial number or nonce cannot be generated.
abbrev pub cache_response_pdu : ℕ → ℕ → Pdu
cache_response_pdu version nonce = record {
  class_of = cache_response;
  version = version;
  content = nonce_content nonce;
}

abbrev pub cache_reset_pdu : ℕ → Pdu
cache_reset_pdu version = record {
  class_of = cache_reset;
  version = version;
  content = empty_content;
}

abbrev pub notify_pdu : ℕ → ℕ → ℕ → Pdu
notify_pdu version serial nonce = record {
  class_of = serial_notify;
  version = version;
  content = serial_content serial nonce;
}

-- `push_pdu(CacheResponsePDU(…))`, what stands between, and `push_pdu(EndOfDataPDU(…))`.
unfoldable pub send_response : ℕ → ℕ → ℕ → List ℕ → Server → Result (List ℕ)
send_response version serial nonce content s = do
  begin ← to_pdu none (cache_response_pdu version nonce)
  last ← make_end_of_data version serial nonce s.refresh s.retry s.expire
  end ← to_pdu none last
  ok (begin ++ content ++ end)

unfoldable pub send_reset : ℕ → Result (List ℕ)
send_reset version = to_pdu none (cache_reset_pdu version)

-- An Error Report about the query `q`.
unfoldable pub send_error : ℕ → ℕ → Pdu → Option (List ℕ) → Result (List ℕ)
send_error version errno q errmsg = do
  errpdu ← to_pdu none q
  p ← make_error_report version errno errpdu errmsg
  to_pdu none p

-- `send_file`; none is an IOError, which comes before anything is pushed.
unfoldable pub send_file : Directory → FileName → ℕ → ℕ → ℕ → Server → Result (Option (List ℕ))
send_file dir name version serial nonce s = do
  guard (file_version name == version) assertion_error
  elim (dir.file name) [
    | none ↦ ok none
    | some content ↦ do bytes ← send_response version serial nonce content s; ok (some bytes)
  ]

-- `SerialQueryPDU.serve`, after `get_serial`.
unfoldable pub answer_serial :
    Directory → Pdu → ℕ → ℕ → ℕ → Option ℕ → Option ℕ → Server → Result (List ℕ)
answer_serial dir q version serial nonce (some current_serial) (some current_nonce) s =
    if not (current_nonce == nonce)
    then send_reset version
    else if current_serial == serial
    then send_response version current_serial current_nonce [] s
    else (do
      sent ←
          send_file dir (ixfr_file current_serial serial version) version current_serial
            current_nonce s
      elim sent [ none ↦ send_reset version | some bytes ↦ ok bytes ])
answer_serial dir q version serial nonce current_serial current_nonce s =
    send_error version 2 q none

-- `ResetQueryPDU.serve`, after `get_serial`.
unfoldable pub answer_reset : Directory → Pdu → ℕ → Option ℕ → Option ℕ → Server → Result (List ℕ)
answer_reset dir q version (some current_serial) (some current_nonce) s = do
  let name = axfr_file current_serial version
  sent ← send_file dir name version current_serial current_nonce s
  elim sent [
    | none ↦ send_error version 1 q (some (codes "Couldn't open " ++ file_text name))
    | some bytes ↦ ok bytes
  ]
answer_reset dir q version current_serial current_nonce s = send_error version 2 q none

-- `errno in self.fatal`
abbrev pub is_fatal : ℕ → Bool
is_fatal errno =
    errno == 0 || errno == 1 || errno == 3 || errno == 4 || errno == 5 || errno == 6 || errno == 7

-- `deliver_pdu`: the methods `serve`, which the two queries and the Error Report have. The result is
-- the server and the bytes that it sends; `version` is that of the PDU, and of the reader.
unfoldable pub serve : Directory → Pdu → Server → Result (Server × List ℕ)
serve dir q s = elim (q.content) [
  | serial_content serial nonce ↦ elim (q.class_of) [
    | serial_query ↦ do
      s' ← get_serial dir s
      bytes ← answer_serial dir q q.version serial nonce s'.current_serial s'.current_nonce s'
      ok (s', bytes)
    | other ↦ err attribute_error
  ]
  | empty_content ↦ elim (q.class_of) [
    | reset_query ↦ do
      s' ← get_serial dir s
      bytes ← answer_reset dir q q.version s'.current_serial s'.current_nonce s'
      ok (s', bytes)
    | other ↦ err attribute_error
  ]
  | error_content errno errpdu errmsg ↦ do guard (not (is_fatal errno)) system_exit; ok (s, [])
  | other ↦ err attribute_error
]

-- `notify`, after `check_serial`.
abbrev pub send_notify : Option ℕ → Option ℕ → Option ℕ → Result (List ℕ)
send_notify (some version) (some serial) (some nonce) =
    to_pdu none (notify_pdu version serial nonce)
send_notify none serial other = err assertion_error
send_notify (some version) serial other = err attribute_error

unfoldable pub notify : Directory → Bool → Server → Result (Server × List ℕ)
notify dir force s = do
  (s', changed) ← if force then ok (s, true) else check_serial dir s
  bytes ← if changed then send_notify s'.version s'.current_serial s'.current_nonce else ok []
  ok (s', bytes)
