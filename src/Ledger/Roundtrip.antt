-- ===== src/Ledger/Roundtrip.antt =====
-- Writing as JSON and reading back in ledger.py: references, entries, snapshots and ledgers.
use airgapped_ai_gateway_k8s.Base.{[], ◌∷◌, Option, none, some, ◌≡◌, refl, arith}
use airgapped_ai_gateway_k8s.Base.Order.{sorted}
use airgapped_ai_gateway_k8s.Base.Outcome.{ok, traverse-map}
use airgapped_ai_gateway_k8s.Base.Json.{Fields, as_dict, to_list-of_list}
use airgapped_ai_gateway_k8s.Ledger.Ref
use airgapped_ai_gateway_k8s.Ledger.Ref.{ResourceRef}
use airgapped_ai_gateway_k8s.Ledger.Entry
use airgapped_ai_gateway_k8s.Ledger.Entry.{
  LedgerEntry, LedgerState, created, updated, pre_existing, parse_state, state_value, optional_dict,
}
use airgapped_ai_gateway_k8s.Ledger.Snapshot
use airgapped_ai_gateway_k8s.Ledger.Snapshot.{
  PreChangeSnapshot, Resources, read_resources, write_resources, key_lt,
}
use airgapped_ai_gateway_k8s.Ledger.State
use airgapped_ai_gateway_k8s.Ledger.State.{StateLedger, entry_value, read_entry, identity_lt}

pub ref_roundtrip : (r : ResourceRef) → Ref.from_dict (Ref.to_dict r) ≡ ok r
unfolding Ref.from_dict Ref.to_dict
ref_roundtrip r = refl

parse_state-state_value : (s : LedgerState) → parse_state (state_value s) ≡ ok s
unfolding parse_state
parse_state-state_value created = refl
parse_state-state_value updated = refl
parse_state-state_value pre_existing = refl

as_dict-optional_dict : (o : Option Fields) → as_dict (optional_dict o) ≡ o
as_dict-optional_dict none = refl
as_dict-optional_dict (some fs) = refl

entry_roundtrip : (e : LedgerEntry) → Entry.from_dict (Entry.to_dict e) ≡ ok e
unfolding Entry.from_dict Entry.to_dict Ref.from_dict
entry_roundtrip e = ground (
  arith,
  parse_state-state_value e.state,
  as_dict-optional_dict e.before,
  as_dict-optional_dict e.after,
)

read_resources-write_resources : (rs : Resources) → read_resources (write_resources rs) ≡ ok rs
unfolding read_resources
read_resources-write_resources [] = refl
read_resources-write_resources ((key, manifest) ∷ rest) =
    ground (arith, read_resources-write_resources rest)

-- A snapshot that was written is read back with the same status, error and resources, the
-- resources in the order of their identities.
pub snapshot_roundtrip :
    (s : PreChangeSnapshot)
    → Snapshot.from_dict (Snapshot.to_dict s)
      ≡ ok (record s { resources = sorted key_lt s.resources })
unfolding Snapshot.from_dict Snapshot.to_dict
snapshot_roundtrip s = ground (arith, read_resources-write_resources (sorted key_lt s.resources))

-- A ledger that was written is read back with the same entries, in the order of their identities.
pub ledger_roundtrip :
    (l : StateLedger)
    → State.from_dict (State.to_dict l) ≡ ok (record { entries = sorted identity_lt l.entries })
unfolding State.from_dict State.to_dict
ledger_roundtrip l =
    rw to_list-of_list
      (rw (traverse-map read_entry entry_value (sorted identity_lt l.entries) entry_roundtrip))
