-- ===== src/Providers/Dns/Zone.antt =====
-- `Upsert` and `Delete` against a zone as a set of records: the order of the records, their TTL and
-- how often one stands there are forgotten.
use easyshift.Base.{
  String, ◌≡◌, Bool, true, false, not, ◌&&◌, ◌||◌, List, [], ◌∷◌, ◌==◌, ◌++◌, if◌then◌else◌,
}
use easyshift.Base.Lists.{contains, All}
use easyshift.Base.Text.{has_substring, to_lower}
use easyshift.Base.Action.{Error, Result, ok, err, Effect, ◌>>◌, done}
use easyshift.Providers.Dns.{Rr, Addr, Libdns, record_names, upsert, delete}

-- The records of a zone by type, name and content.
abbrev pub Records : Type 0
Records = String → String → String → Bool

-- Is the record among those of a list? Is another of its type and name?
abbrev pub has_record : List Rr → Records
has_record [] k n a = false
has_record (r ∷ rs) k n a = (r.kind == k && r.name == n && r.content == a) || has_record rs k n a

abbrev pub has_pair : List Rr → String → String → Bool
has_pair [] k n = false
has_pair (r ∷ rs) k n = (r.kind == k && r.name == n) || has_pair rs k n

-- The names of a cluster point at an address, and nothing else of the address's type does.
abbrev pub point_at : List String → Addr → Records → Records
point_at names addr z k n a = if addr.kind == k && contains names n then addr.text == a else z k n a

-- The names of a cluster have no address.
abbrev pub clear : List String → Records → Records
clear names z k n a = if k == "A" && contains names n then false else z k n a

-- A call of the manager.
pub data Op : Type 0 where
  upserts : String → String → Op
  deletes : String → Op

-- The errors of `DeleteRecords` so far, with that of one more call.
abbrev pub noted : Result (List Rr) → List Error → List Error
noted (ok _) es = es
noted (err e) es = e ∷ es

-- An error that says that there is no such record.
abbrev pub SaysMissing : Error → Type 0
SaysMissing e =
    (has_substring (to_lower e) "not found" || has_substring (to_lower e) "no record") ≡ true

-- Without an error a zone is what it is wanted to be. An error promises nothing of the zone.
abbrev pub Exact : List Error → Records → Records → Type 0
Exact [] z wanted = z ≡ wanted
Exact (e ∷ es) z wanted = Unit

module _ {W : Type 0} (dns : Libdns W) (zone : String) (view : W → Records)
    (errors : W → List Error) where
  -- What `libdns` documents of its providers: `SetRecords` leaves the given records alone under
  -- their type and name, and `DeleteRecords` takes the given ones away. What an error leaves is not
  -- said; `errors` observes those of `DeleteRecords`.
  pub record IsProvider : Type 0 where
    pub get :
        (w : W) (rs : List Rr)
        → (dns.get_records zone w).1 ≡ ok rs
        → (k n a : String) → has_record rs k n a ≡ view w k n a
    pub got : (w : W) (k n a : String) → view (dns.get_records zone w).0 k n a ≡ view w k n a
    pub set :
        (rs set : List Rr) (w : W)
        → (dns.set_records zone rs w).1 ≡ ok set
        → (k n a : String)
        → view (dns.set_records zone rs w).0 k n a
          ≡ (if has_pair rs k n then has_record rs k n a else view w k n a)
    pub got_errors : (w : W) → errors (dns.get_records zone w).0 ≡ errors w
    pub set_errors : (rs : List Rr) (w : W) → errors (dns.set_records zone rs w).0 ≡ errors w
    pub delete_errors :
        (rs : List Rr) (w : W)
        → errors (dns.delete_records zone rs w).0
          ≡ noted (dns.delete_records zone rs w).1 (errors w)
    pub delete :
        (rs gone : List Rr) (w : W)
        → (dns.delete_records zone rs w).1 ≡ ok gone
        → (k n a : String)
        → view (dns.delete_records zone rs w).0 k n a ≡ (view w k n a && not (has_record rs k n a))

  abbrev call : Op → Effect W
  call (upserts fqdn ip) = upsert dns zone fqdn ip
  call (deletes fqdn) = delete dns zone fqdn

  -- The calls in their order, up to one that fails.
  abbrev pub run : List Op → Effect W
  run [] = done
  run (op ∷ ops) = do call op; run ops

  abbrev moved : List String → Result Addr → Records → Records
  moved names (ok addr) z = point_at names addr z
  moved names (err e) z = z

  -- What a call does to the set of records.
  abbrev effect : Op → Records → Records
  effect (upserts fqdn ip) z = moved (record_names dns zone fqdn) (dns.parse_addr ip) z
  effect (deletes fqdn) z = clear (record_names dns zone fqdn) z

  abbrev pub replay : List Op → Records → Records
  replay [] z = z
  replay (op ∷ ops) z = replay ops (effect op z)

  -- A sequence of calls leads from one world to another: the errors of `DeleteRecords` in it all say
  -- that there is no such record, and if there is none, the zone is what it is wanted to be.
  abbrev pub Reaches : Records → W → W → Type 0
  Reaches wanted w w' =
      (new : List Error) × (errors w' ≡ new ++ errors w)
      × All SaysMissing new
      × Exact new (view w') wanted

  module _ (law : IsProvider) where
    -- What is left of a zone without some records.
    abbrev without : List Rr → Records → Records
    without rs z k n a = z k n a && not (has_record rs k n a)
