-- ===== src/Rtr/Client.antt =====
-- rpki/rtr/client.py: what a client does with the PDUs that it receives, and the tables that it keeps
-- of them. The rows of other caches in the same database are left out; every query selects by
-- `cache_id`.
pub mod Tables
pub mod Updates
use rpki_net.Prelude.{
  ℕ, Bool, true, false, ◌&&◌, ◌||◌, not, List, [], ◌∷◌, Option, none, some, ◌==◌, if◌then◌else◌,
}
use rpki_net.Result.{
  Result, ok, err, assertion_error, attribute_error, integrity_error, guard, ◌>>=◌, ◌>>◌,
}
use rpki_net.Rtr.Bytes.{bytes_eq}
use rpki_net.Rtr.Pdu.{
  PduClass, Pdu, serial_notify, serial_query, reset_query, end_of_data_v0, cache_reset, Content,
  serial_content, nonce_content, empty_content, timing_content, prefix_content, key_content,
  error_content, address_byte_count,
}
use rpki_net.Rtr.Check.{Timing, default_refresh, default_retry, default_expire}

-- The text of an address tells its version, which is kept here as its number of bytes.
pub record PrefixRow : Type 0 where
  pub asnum : ℕ
  pub address_bytes : ℕ
  pub prefix : ℕ
  pub prefixlen : ℕ
  pub max_prefixlen : ℕ

pub record KeyRow : Type 0 where
  pub asnum : ℕ
  pub ski : List ℕ
  pub key : List ℕ

-- The row of the table `cache`.
pub record CacheRow : Type 0 where
  pub version : Option ℕ
  pub nonce : Option ℕ
  pub serial : Option ℕ
  pub updated : Option ℕ
  pub timing : Option Timing

pub record Database : Type 0 where
  pub cache : CacheRow
  pub prefixes : List PrefixRow
  pub keys : List KeyRow

-- `ClientChannel`; `version` is that of the reader.
pub record Client : Type 0 where
  pub version : Option ℕ
  pub serial : Option ℕ
  pub nonce : Option ℕ
  pub timing : Timing
  pub updated : ℕ
  pub sql : Option Database

-- Equality of the columns of a row.
unfoldable pub prefix_row_eq : PrefixRow → PrefixRow → Bool
prefix_row_eq a b =
    a.asnum == b.asnum
    && a.address_bytes == b.address_bytes
    && a.prefix == b.prefix
    && a.prefixlen == b.prefixlen
    && a.max_prefixlen == b.max_prefixlen

unfoldable pub has_prefix : PrefixRow → List PrefixRow → Bool
has_prefix row [] = false
has_prefix row (r ∷ rs) = prefix_row_eq row r || has_prefix row rs

unfoldable pub delete_prefix : PrefixRow → List PrefixRow → List PrefixRow
delete_prefix row [] = []
delete_prefix row (r ∷ rs) =
    let rest = delete_prefix row rs in if prefix_row_eq row r then rest else r ∷ rest

-- The columns `asn` and `ski`, or `asn` and `key`, of two rows agree.
unfoldable pub key_row_meets : KeyRow → KeyRow → Bool
key_row_meets a b = a.asnum == b.asnum && (bytes_eq a.ski b.ski || bytes_eq a.key b.key)

unfoldable pub meets_key : KeyRow → List KeyRow → Bool
meets_key row [] = false
meets_key row (r ∷ rs) = key_row_meets row r || meets_key row rs

unfoldable pub delete_key : KeyRow → List KeyRow → List KeyRow
delete_key row [] = []
delete_key row (r ∷ rs) =
    let rest = delete_key row rs in if key_row_meets row r then rest else r ∷ rest

-- INSERT with the constraint UNIQUE, and DELETE.
abbrev pub change_prefixes : Bool → PrefixRow → Database → Result Database
change_prefixes true row db = do
  guard (not (has_prefix row db.prefixes)) integrity_error
  ok (record db { prefixes = row ∷ db.prefixes })
change_prefixes false row db = ok (record db { prefixes = delete_prefix row db.prefixes })

abbrev pub change_keys : Bool → KeyRow → Database → Result Database
change_keys true row db = do
  guard (not (meets_key row db.keys)) integrity_error
  ok (record db { keys = row ∷ db.keys })
change_keys false row db = ok (record db { keys = delete_key row db.keys })

-- `if self.sql: …`
abbrev pub with_sql : (Database → Result Database) → Client → Result Client
with_sql change c = elim (c.sql) [
  | none ↦ ok c
  | some db ↦ do db' ← change db; ok (record c { sql = some db' })
]

-- `consume_prefix` and `consume_routerkey`; any announce flag but zero announces.
unfoldable pub consume_prefix : PduClass → ℕ → ℕ → ℕ → ℕ → ℕ → Client → Result Client
consume_prefix class_of announce prefix prefixlen max_prefixlen asnum = with_sql (
    change_prefixes (not (announce == 0)) (record {
      asnum = asnum;
      address_bytes = address_byte_count class_of;
      prefix = prefix;
      prefixlen = prefixlen;
      max_prefixlen = max_prefixlen;
    }))

unfoldable pub consume_routerkey : ℕ → List ℕ → ℕ → List ℕ → Client → Result Client
consume_routerkey announce ski asnum key =
    with_sql (change_keys (not (announce == 0)) (record { asnum = asnum; ski = ski; key = key }))

-- `cache_reset`
unfoldable pub cache_reset_client : Client → Result Client
cache_reset_client c =
    with_sql
      (λ db. ok (record {
        cache = record (db.cache) { version = c.version; serial = none };
        prefixes = [];
        keys = [];
      }))
      (record c { serial = none })

abbrev pub version_is : Option ℕ → ℕ → Bool
version_is none v = false
version_is (some w) v = w == v

-- `end_of_data`; `now` is the time.
unfoldable pub end_of_data : ℕ → ℕ → ℕ → ℕ → Timing → Client → Result Client
end_of_data now version serial nonce timing c = do
  guard (version_is c.version version) assertion_error
  with_sql
      (λ db. ok (record db {
        cache = record {
          version = some version;
          nonce = some nonce;
          serial = some serial;
          updated = some now;
          timing = some timing;
        };
      }))
      (record c { serial = some serial; nonce = some nonce; timing = timing; updated = now })

-- A query; without a version it takes `default_version`.
abbrev pub query : PduClass → Option ℕ → Content → Pdu
query class_of none content = record { class_of = class_of; version = 1; content = content }
query class_of (some version) content = record {
  class_of = class_of;
  version = version;
  content = content;
}

abbrev pub reset_query_pdu : Client → Pdu
reset_query_pdu c = query reset_query c.version empty_content

-- `SerialNotifyPDU.consume`: the PDU that is pushed, if any.
unfoldable pub notified : ℕ → ℕ → Option ℕ → Option ℕ → Client → List Pdu
notified serial nonce (some own_serial) (some own_nonce) c =
    if not (own_nonce == nonce)
    then reset_query_pdu c ∷ []
    else if not (serial == own_serial)
    then query serial_query c.version (serial_content own_serial own_nonce) ∷ []
    else []
notified serial nonce own_serial own_nonce c = reset_query_pdu c ∷ []

-- `CacheResponsePDU.consume`
unfoldable pub responded : ℕ → Option ℕ → Client → Result Client
responded nonce (some own_nonce) c = if nonce == own_nonce then ok c else cache_reset_client c
responded nonce none c = cache_reset_client c

abbrev pub default_timing : Timing
default_timing = record {
  refresh = default_refresh;
  retry = default_retry;
  expire = default_expire;
}

-- `deliver_pdu`: the methods `consume`, by class; a query has none. The result is the client and what
-- it pushes.
unfoldable pub deliver : ℕ → Pdu → Client → Result (Client × List Pdu)
deliver now p c = elim (p.content) [
  | serial_content serial nonce ↦ elim (p.class_of) [
    | serial_notify ↦ ok (c, notified serial nonce c.serial c.nonce c)
    | end_of_data_v0 ↦ do c' ← end_of_data now p.version serial nonce default_timing c; ok (c', [])
    | other ↦ err attribute_error
  ]
  | nonce_content nonce ↦ do c' ← responded nonce c.nonce c; ok (c', [])
  | empty_content ↦ elim (p.class_of) [
    | cache_reset ↦ do c' ← cache_reset_client c; ok (c', reset_query_pdu c' ∷ [])
    | other ↦ err attribute_error
  ]
  | timing_content serial nonce refresh retry expire ↦ do
    c' ←
        end_of_data now p.version serial nonce
          (record { refresh = refresh; retry = retry; expire = expire }) c
    ok (c', [])
  | prefix_content announce prefix prefixlen max_prefixlen asnum ↦ do
    c' ← consume_prefix p.class_of announce prefix prefixlen max_prefixlen asnum c
    ok (c', [])
  | key_content announce ski asnum key ↦ do
    c' ← consume_routerkey announce ski asnum key c
    ok (c', [])
  | error_content errno errpdu errmsg ↦ ok (c, [])
]
