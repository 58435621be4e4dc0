-- ===== src/Tests/DnsRuns.antt =====
-- A provider of DNS records that keeps them in a list, beside the errors of its deletions, and calls of the manager on it.
use easyshift.Base.{Bool, not, List, [], ◌∷◌, ◌++◌}
use easyshift.Base.Lists.{keep}
use easyshift.Base.Action.{Error, Result, ok, err}
use easyshift.Providers.Dns.{Rr, Libdns}
use easyshift.Providers.Dns.Zone.{has_record, has_pair, Op, upserts, deletes, Records}

abbrev fresh : List Rr → Rr → Bool
fresh rs r = not (has_pair rs r.kind r.name)

abbrev unlisted : List Rr → Rr → Bool
unlisted rs r = not (has_record rs r.kind r.name r.content)

abbrev pub Provider : Type 0
Provider = List Rr × List Error

-- A zone without records knows none to delete.
abbrev removes : List Rr → Provider → Provider × Result (List Rr)
removes rs ([], es) = (([], "Record not found" ∷ es), err "Record not found")
removes rs (r ∷ w, es) = ((keep (unlisted rs) (r ∷ w), es), ok rs)

abbrev listed : Provider → Records
listed w = has_record w.0

abbrev failures : Provider → List Error
failures w = w.1

abbrev listed_dns : Libdns Provider
listed_dns = record {
  get_records = λ zone w. (w, ok w.0);
  set_records = λ zone rs w. ((keep (fresh rs) w.0 ++ rs, w.1), ok rs);
  delete_records = λ zone. removes;
  relative_name = λ name zone. name;
  parse_addr = λ ip. ok (record { text = ip; kind = "A" });
}

abbrev two_calls : List Op
two_calls = upserts "demo.example.com" "10.0.0.5" ∷ deletes "demo.example.com" ∷ []
