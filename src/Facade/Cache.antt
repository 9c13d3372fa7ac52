-- ===== src/Facade/Cache.antt =====
-- facade/cache.go: the results that wait to be read, and how a flush turns them into payloads.
use card_client.Prelude.{
  ℕ, List, [], ◌∷◌, ◌++◌, Bool, true, false, Option, none, some, if◌then◌else◌, ◌≡◌, refl, arith,
  sym, subst, ◌∙◌, Option-cases, inl, inr, All, length, map, ltb, ap,
}
use mathlib.Core.Path.{ap₂}
use mathlib.Core.List.{append-nil, append_assoc}
use card_client.Prelude.Int.{ℤ, pos}
use card_client.Prelude.Assoc.{lookup, insert, All-insert, All-lookup}
use card_client.Resource.Types.{Record, Box, sync_missing}

pub record OperationPayload : Type 0 where
  pub operation_id : ℕ
  pub payload : Record

-- `rids` and `op_ids` grow and are emptied together.
pub record CacheManager : Type 0 where
  pub rids : List ℕ
  pub op_ids : List ℕ

abbrev pub new_cache_manager : CacheManager
new_cache_manager = record { rids = []; op_ids = [] }

unfoldable pub push : ℕ → ℕ → CacheManager → CacheManager
push rid op m = record { rids = m.rids ++ (rid ∷ []); op_ids = m.op_ids ++ (op ∷ []) }

unfoldable pub has_requests : CacheManager → Bool
has_requests m = ltb 0 (length m.rids)

-- Go's zero `resource.Record` with an ID and sync data.
abbrev pub missing_record : ℕ → ℤ → Record
missing_record rid time = record {
  id = rid;
  imported = record { import_time = pos 0; import_index = pos 0 };
  info = record {
    source = "";
    normalized_url = "";
    direct_url = "";
    platform_id = "";
    character_id = "";
    name = "";
    title = "";
    tagline = "";
    create_time = pos 0;
    update_time = pos 0;
    book_update_time = pos 0;
    greetings_count = 0;
    is_fork = false;
    tags = [];
  };
  creator = record { cid = ""; nickname = ""; username = ""; platform_id = ""; source = "" };
  sync = record { sync_time = time; sync_status = sync_missing };
  exported = record { export_time = pos 0; exported_version = pos 0 };
  aux = record { favorite = false };
}

-- `operationIDs[index]` for the index of each RID; the lists have one length.
unfoldable pub missing_payloads : ℤ → List ℕ → List ℕ → List OperationPayload
missing_payloads time [] ops = []
missing_payloads time (rid ∷ rids) [] = []
missing_payloads time (rid ∷ rids) (op ∷ ops) =
    record { operation_id = op; payload = missing_record rid time } ∷ missing_payloads time rids ops

unfoldable pub build_missing_payloads : List ℕ → List ℕ → ℤ → Box OperationPayload
unfolding missing_payloads
build_missing_payloads rids ops time = record {
  items = missing_payloads time rids ops;
  timestamp = time;
}

-- `recordMap`: the last record with an ID is the one kept.
unfoldable pub record_map : List Record → List (ℕ × Record) → List (ℕ × Record)
record_map [] m = m
record_map (r ∷ rs) m = record_map rs (insert r.id r m)

abbrev pub payload_of : ℤ → ℕ → Option Record → Record
payload_of time rid none = missing_record rid time
payload_of time rid (some r) = r

unfoldable pub found_payloads : ℤ → List (ℕ × Record) → List ℕ → List ℕ → List OperationPayload
found_payloads time m [] ops = []
found_payloads time m (rid ∷ rids) [] = []
found_payloads time m (rid ∷ rids) (op ∷ ops) =
    record { operation_id = op; payload = payload_of time rid (lookup rid m) }
    ∷ found_payloads time m rids ops

-- What the catalog gives: no vault in use, or a box with an error or not. `FindRecords` returns
-- its box beside an error too.
pub data Lookup : Type 0 where
  unavailable : Lookup
  unreadable found : Box Record → Lookup

abbrev pub payloads : Lookup → List ℕ → List ℕ → ℤ → Box OperationPayload
payloads unavailable rids ops now = build_missing_payloads rids ops now
payloads (unreadable box) rids ops now = build_missing_payloads rids ops box.timestamp
payloads (found box) rids ops now = record {
  items = found_payloads box.timestamp (record_map box.items []) rids ops;
  timestamp = box.timestamp;
}

unfoldable pub flush : (List ℕ → Lookup) → ℤ → CacheManager → Box OperationPayload × CacheManager
unfolding build_missing_payloads record_map found_payloads
flush find now m =
    if has_requests m
    then (payloads (find m.rids) m.rids m.op_ids now, new_cache_manager)
    else (record { items = []; timestamp = now }, m)

-- A run of pushes.
unfoldable pub push_all : List (ℕ × ℕ) → CacheManager → CacheManager
unfolding push
push_all [] m = m
push_all ((rid, op) ∷ requests) m = push_all requests (push rid op m)

-- The request that a payload answers.
abbrev pub request_of : OperationPayload → ℕ × ℕ
request_of p = (p.payload.id, p.operation_id)

push_all-appends :
    (requests : List (ℕ × ℕ)) (m : CacheManager)
    → ((push_all requests m).rids ≡ m.rids ++ map (λ r. r.0) requests)
      × ((push_all requests m).op_ids ≡ m.op_ids ++ map (λ r. r.1) requests)
unfolding push_all push
push_all-appends [] m = (sym (append-nil m.rids), sym (append-nil m.op_ids))
push_all-appends ((rid, op) ∷ requests) m =
    let h = push_all-appends requests (push rid op m) in
    (
      h.0 ∙ append_assoc m.rids (rid ∷ []) (map (λ r. r.0) requests),
      h.1 ∙ append_assoc m.op_ids (op ∷ []) (map (λ r. r.1) requests),
    )

missing_payloads-requests :
    (time : ℤ) (requests : List (ℕ × ℕ))
    → map request_of (missing_payloads time (map (λ r. r.0) requests) (map (λ r. r.1) requests))
      ≡ requests
unfolding missing_payloads
missing_payloads-requests time [] = refl
missing_payloads-requests time ((rid, op) ∷ requests) =
    ap (λ rs. (rid, op) ∷ rs) (missing_payloads-requests time requests)

abbrev OwnId : ℕ × Record → Type 0
OwnId (rid, r) = r.id ≡ rid

record_map-OwnId :
    (rs : List Record) (m : List (ℕ × Record)) → All OwnId m → All OwnId (record_map rs m)
unfolding record_map
record_map-OwnId [] m a = a
record_map-OwnId (r ∷ rs) m a =
    record_map-OwnId rs (insert r.id r m) (All-insert OwnId r.id r m refl a)

payload_of-id :
    (time : ℤ) (rid : ℕ) (m : List (ℕ × Record))
    → All OwnId m
    → (payload_of time rid (lookup rid m)).id ≡ rid
payload_of-id time rid m a = elim (Option-cases (lookup rid m)) [
  | inl e ↦ rw e refl
  | inr (r, e) ↦ rw e (All-lookup OwnId rid r m a e)
]

found_payloads-requests :
    (time : ℤ) (m : List (ℕ × Record)) (requests : List (ℕ × ℕ))
    → All OwnId m
    → map request_of (found_payloads time m (map (λ r. r.0) requests) (map (λ r. r.1) requests))
      ≡ requests
unfolding found_payloads
found_payloads-requests time m [] a = refl
found_payloads-requests time m ((rid, op) ∷ requests) a =
    ap₂ (λ i rs. (i, op) ∷ rs) (payload_of-id time rid m a)
      (found_payloads-requests time m requests a)

payloads-requests :
    (l : Lookup) (now : ℤ) (requests : List (ℕ × ℕ))
    → map request_of (payloads l (map (λ r. r.0) requests) (map (λ r. r.1) requests) now).items
      ≡ requests
unfolding build_missing_payloads
payloads-requests unavailable now requests = missing_payloads-requests now requests
payloads-requests (unreadable box) now requests = missing_payloads-requests box.timestamp requests
payloads-requests (found box) now requests =
    found_payloads-requests box.timestamp (record_map box.items []) requests
      (record_map-OwnId box.items [] tt)

abbrev Answers : List (ℕ × ℕ) → Box OperationPayload × CacheManager → Type 0
Answers requests (box, m) = (map request_of box.items ≡ requests) × (m ≡ new_cache_manager)

flush_pending :
    (find : List ℕ → Lookup) (now : ℤ) (m : CacheManager)
    → has_requests m ≡ true
    → flush find now m ≡ (payloads (find m.rids) m.rids m.op_ids now, new_cache_manager)
unfolding flush
flush_pending find now m h = rw h refl

has_requests_cons :
    (rid : ℕ) (rids ops : List ℕ) → has_requests (record { rids = rid ∷ rids; op_ids = ops }) ≡ true
unfolding has_requests
has_requests_cons rid rids ops = ground arith

flush-Answers :
    (find : List ℕ → Lookup) (now : ℤ) (requests : List (ℕ × ℕ))
    → Answers requests (
        flush find now
          (record { rids = map (λ r. r.0) requests; op_ids = map (λ r. r.1) requests }))
unfolding flush has_requests
flush-Answers find now [] = (refl, refl)
flush-Answers find now (r ∷ requests) =
    let rids = map (λ p. p.0) (r ∷ requests) in
    let ops = map (λ p. p.1) (r ∷ requests) in
    subst (Answers (r ∷ requests))
      (sym (
        flush_pending find now (record { rids = rids; op_ids = ops })
          (has_requests_cons r.0 (map (λ p. p.0) requests) ops)))
      (payloads-requests (find rids) now (r ∷ requests), refl)

-- A flush after some requests have been pushed onto an empty cache gives one payload for each
-- request, in their order, with its RID and its operation, whatever the catalog answers. The cache
-- is empty after it.
pub flush_answers :
    (find : List ℕ → Lookup) (now : ℤ) (requests : List (ℕ × ℕ))
    → (map request_of (flush find now (push_all requests new_cache_manager)).0.items ≡ requests)
      × ((flush find now (push_all requests new_cache_manager)).1 ≡ new_cache_manager)
flush_answers find now requests =
    let h = push_all-appends requests new_cache_manager in
    subst (λ m. Answers requests (flush find now m))
      (λ i. record { rids = sym h.0 i; op_ids = sym h.1 i }) (flush-Answers find now requests)
