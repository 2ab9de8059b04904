-- ===== src/Rtr/Text.antt =====
-- The texts that the server puts into Error Reports, as bytes.
use Prim.Native.String.{String}
use Prim.Native.Char.{code}
use rpki_net.Prelude.{
  ℕ, zero, suc, ◌+◌, ◌/◌, ◌%◌, true, false, List, [], ◌∷◌, ◌++◌, Option, none, some, ltb, ◌==◌,
  if◌then◌else◌,
}
use rpki_net.Result.{Result, ok, err, assertion_error}
use rpki_net.Rtr.Pdu.{Pdu, error_report, error_content}

-- The bytes of an ASCII text.
abbrev pub codes : String → List ℕ
codes String.[] = []
codes (String.◌∷◌ c s) = code c ∷ codes s

-- The digits of a number, for `%d`.
digits_of : ℕ → ℕ → List ℕ
digits_of zero n = []
digits_of (suc fuel) n = elim (ltb n 10) [
  | true ↦ (48 + n) ∷ []
  | false ↦ digits_of fuel (n / 10) ++ (48 + n % 10) ∷ []
]

-- There are no more digits than the number counts, and one.
unfoldable pub decimal : ℕ → List ℕ
unfolding digits_of
decimal n = digits_of (suc n) n

abbrev pub or_text : List ℕ → Option (List ℕ) → List ℕ
or_text text none = text
or_text text (some msg) = msg

-- `ErrorReportPDU.errors`
unfoldable pub errors : ℕ → Option (List ℕ)
errors errno =
    if errno == 0
    then some (codes "Corrupt Data")
    else if errno == 1
    then some (codes "Internal Error")
    else if errno == 2
    then some (codes "No Data Available")
    else if errno == 3
    then some (codes "Invalid Request")
    else if errno == 4
    then some (codes "Unsupported Protocol Version")
    else if errno == 5
    then some (codes "Unsupported PDU Type")
    else if errno == 6
    then some (codes "Withdrawal of Unknown Record")
    else if errno == 7
    then some (codes "Duplicate Announcement Received")
    else none

-- `ErrorReportPDU.__init__`, for an `errno`; `errpdu` is the wire format of that PDU, if any.
unfoldable pub make_error_report : ℕ → ℕ → List ℕ → Option (List ℕ) → Result Pdu
make_error_report version errno errpdu errmsg = elim (errors errno) [
  | none ↦ err assertion_error
  | some text ↦ ok (record {
    class_of = error_report;
    version = version;
    content = error_content errno errpdu (or_text text errmsg);
  })
]
