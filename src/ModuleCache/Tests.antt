-- ===== src/ModuleCache/Tests.antt =====
-- The properties of components/module-cache/src/cache.rs on concrete stores and requests.
use wasm_platform.Base.{
  ℕ, zero, suc, ◌≡◌, refl, Bytes, ascii, List, ◌∷◌, [], ◌++◌, some, ok, bytes_discrete, arith,
  ℕ_discrete, strip_prefix, starts_with, bytes_eq, take_at,
}
use wasm_platform.Base.Map.{total, get as map_get, insert as map_insert, remove as map_remove}
use wasm_platform.Platform.Artifacts.{Sha256Digest, parse, verify_wasm, verify, from_bytes}
use wasm_platform.ModuleCache.Store.{
  Store, empty, insert, get, no_content, insert_new, make_room, admit, touch, forget,
}
use wasm_platform.ModuleCache.Store.Eviction.{IsValid}
use wasm_platform.ModuleCache.Store.Invariant.{insert-IsValid, Outcome, insert-Outcome}
use wasm_platform.ModuleCache.Store.Lru.{contents, put, insert-put}
use wasm_platform.ModuleCache.Server.{
  Event, body, response_dropped, start, run, get_module, put_module, step, with_limits, new,
  finish_body, stored, respond,
}
use wasm_platform.ModuleCache.Server.Verified.{Verified}
use wasm_platform.ModuleCache.Server.Safety.{IsSafe, run-IsSafe, get_module-body-Verified}

-- A function in the place of the hash.
abbrev zeros : ℕ → Bytes
zeros zero = []
zeros (suc n) = b'0' ∷ zeros n

abbrev hash : Bytes → Bytes
hash bytes = zeros 64

abbrev digest : Bytes
digest = ascii "sha256:" ++ zeros 64

abbrev wasm : Bytes
wasm = 0 ∷ ascii "asm" ++ 1 ∷ 0 ∷ 0 ∷ 0 ∷ []

-- An upload, its body, and two requests for it.
abbrev events : List Event
events =
    Event.put digest
    ∷ body 0 (some (ok wasm))
    ∷ Event.get digest
    ∷ Event.get digest
    ∷ response_dropped
    ∷ []

abbrev small : Store
small = empty 8 2

empty-IsValid : IsValid small
unfolding total
empty-IsValid = record {
  covered = refl;
  distinct = tt;
  counted = refl;
  bytes_fit = ground arith;
  entries_fit = ground arith;
}

-- A store with one artifact of three bytes.
abbrev one : Store
one = (insert (ascii "a") (1 ∷ 2 ∷ 3 ∷ []) small).0

one-IsValid : IsValid one
one-IsValid = insert-IsValid (ascii "a") (1 ∷ 2 ∷ 3 ∷ []) small empty-IsValid

-- Six bytes do not fit beside three in eight.
abbrev six : Bytes
six = 1 ∷ 2 ∷ 3 ∷ 4 ∷ 5 ∷ 6 ∷ []

run-IsSafe_example : IsSafe hash (run hash start events)
run-IsSafe_example = run-IsSafe hash events

insert-IsValid_example : IsValid (insert (ascii "b") six one).0
insert-IsValid_example = insert-IsValid (ascii "b") six one one-IsValid

insert-put_example :
    contents (insert (ascii "b") six one).0
    ≡ put (ascii "b") six one.max_bytes one.max_entries (contents one)
insert-put_example = insert-put (ascii "b") six one one-IsValid

insert-Outcome_example : Outcome (ascii "b") six one (insert (ascii "b") six one)
insert-Outcome_example = insert-Outcome (ascii "b") six one one-IsValid

served :
    (get_module
      (run hash start (Event.put digest ∷ body 0 (some (ok wasm)) ∷ [])).state
      digest).1.body
    ≡ some wasm
unfolding get_module run step put_module new with_limits parse finish_body verify_wasm verify
    from_bytes stored respond insert get insert_new make_room admit touch forget map_get map_insert
    map_remove strip_prefix starts_with bytes_eq take_at bytes_discrete ℕ_discrete
served = refl

get_module-body-Verified_example : (d : Sha256Digest) × (parse digest ≡ ok d) × Verified hash d wasm
get_module-body-Verified_example =
    get_module-body-Verified hash (Event.put digest ∷ body 0 (some (ok wasm)) ∷ []) digest wasm
      served

cached : (finish_body hash new digest (some (ok wasm))).1.status ≡ no_content
unfolding new with_limits finish_body verify_wasm verify from_bytes stored insert get insert_new
    make_room admit touch forget map_get map_insert map_remove strip_prefix starts_with bytes_eq
    bytes_discrete ℕ_discrete
cached = refl

new-IsValid : IsValid new.store
unfolding new with_limits total
new-IsValid = record {
  covered = refl;
  distinct = tt;
  counted = refl;
  bytes_fit = ground arith;
  entries_fit = ground arith;
}
