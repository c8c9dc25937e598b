-- ===== src/Host/Config/Lookup.antt =====
-- What `AppRegistry` answers for a topic after a full snapshot and after updates.
use wasm_platform.Base.{
  ◌≡◌, refl, Bytes, List, ◌∷◌, [], ◌++◌, Option, none, some, bytes_discrete, arith, ite,
  Option-cases, ◌∙◌, inl, inr,
}
use wasm_platform.Base.Map.{get, insert, get-insert, Distinct, insert-Distinct}
use wasm_platform.Host.Config.Entries.{
  ApplicationConfig, FunctionConfig, FunctionEntry, AppRegistry, function_entry_from,
}
use wasm_platform.Host.Config.Registry.{
  insert_topic, insert_functions, incoming_of, insert_all, apply_full_config, get_by_topic,
}

-- What a configuration declares, in order.
abbrev pub declaration : ApplicationConfig → FunctionConfig → AppRegistry
declaration app f = elim f.topic [
  | none ↦ []
  | some topic ↦ (topic, function_entry_from app f) ∷ []
]

abbrev pub declarations : ApplicationConfig → List FunctionConfig → AppRegistry
declarations app [] = []
declarations app (f ∷ fs) = declaration app f ++ declarations app fs

abbrev pub all_declarations : List ApplicationConfig → AppRegistry
all_declarations [] = []
all_declarations (app ∷ apps) = declarations app app.functions ++ all_declarations apps

abbrev pub or_else : Option FunctionEntry → Option FunctionEntry → Option FunctionEntry
or_else none o = o
or_else (some e) o = some e

or_else_assoc : (a b c : Option FunctionEntry) → or_else a (or_else b c) ≡ or_else (or_else a b) c
or_else_assoc none b c = refl
or_else_assoc (some e) b c = refl

or_else_empty : (a : Option FunctionEntry) → or_else a none ≡ a
or_else_empty none = refl
or_else_empty (some e) = refl

or_else-none : (a : Option FunctionEntry) → or_else (or_else a none) none ≡ a
or_else-none none = refl
or_else-none (some e) = refl

-- The last declaration of a topic.
unfoldable pub last_with : Bytes → AppRegistry → Option FunctionEntry
last_with t [] = none
last_with t ((k, e) ∷ l) = or_else (last_with t l) (ite (bytes_discrete k t) (some e) none)

pub last_with-append :
    (t : Bytes) (l k : AppRegistry) → last_with t (l ++ k) ≡ or_else (last_with t k) (last_with t l)
unfolding last_with
last_with-append t [] k = ground arith
last_with-append t ((j, e) ∷ l) k = ground (arith, last_with-append t l k)

pub last_with-eq-get :
    (t : Bytes) (l : AppRegistry)
    → Distinct bytes_discrete l
    → last_with t l ≡ get bytes_discrete t l
unfolding last_with get
last_with-eq-get t [] d = refl
last_with-eq-get t ((j, e) ∷ l) d = ground (arith, last_with-eq-get t l d.1)

get-insert_topic :
    (t : Bytes) (app : ApplicationConfig) (f : FunctionConfig) (m : AppRegistry)
    → get bytes_discrete t (insert_topic app f m)
      ≡ or_else (last_with t (declaration app f)) (get bytes_discrete t m)
unfolding insert_topic last_with
get-insert_topic t app f m = elim (Option-cases f.topic) [
  | inl e ↦ ground (arith, e)
  | inr (topic, e) ↦
      (ground (arith, get-insert bytes_discrete topic t (function_entry_from app f) m))
]

pub get-insert_functions :
    (t : Bytes) (app : ApplicationConfig) (fs : List FunctionConfig) (m : AppRegistry)
    → get bytes_discrete t (insert_functions app fs m)
      ≡ or_else (last_with t (declarations app fs)) (get bytes_discrete t m)
unfolding insert_functions
get-insert_functions t app [] m = unfold last_with in refl
get-insert_functions t app (f ∷ fs) m =
    rw
      (
        get-insert_functions t app fs (insert_topic app f m),
        get-insert_topic t app f m,
        last_with-append t (declaration app f) (declarations app fs),
      )
      (or_else_assoc (last_with t (declarations app fs)) (last_with t (declaration app f))
        (get bytes_discrete t m))

insert_topic-Distinct :
    (app : ApplicationConfig) (f : FunctionConfig) (m : AppRegistry)
    → Distinct bytes_discrete m
    → Distinct bytes_discrete (insert_topic app f m)
unfolding insert_topic
insert_topic-Distinct app f m d = elim (Option-cases f.topic) [
  | inl e ↦ rw (e, insert_topic) d
  | inr (topic, e) ↦ rw (e, insert_topic) (insert-Distinct bytes_discrete topic _ m d)
]

pub insert_functions-Distinct :
    (app : ApplicationConfig) (fs : List FunctionConfig) (m : AppRegistry)
    → Distinct bytes_discrete m
    → Distinct bytes_discrete (insert_functions app fs m)
unfolding insert_functions
insert_functions-Distinct app [] m d = d
insert_functions-Distinct app (f ∷ fs) m d =
    insert_functions-Distinct app fs (insert_topic app f m) (insert_topic-Distinct app f m d)

get-incoming_of :
    (t : Bytes) (apps : List ApplicationConfig) (m : AppRegistry)
    → get bytes_discrete t (incoming_of apps m)
      ≡ or_else (last_with t (all_declarations apps)) (get bytes_discrete t m)
unfolding incoming_of
get-incoming_of t [] m = unfold last_with in refl
get-incoming_of t (app ∷ apps) m =
    rw
      (
        get-incoming_of t apps (insert_functions app app.functions m),
        get-insert_functions t app app.functions m,
        last_with-append t (declarations app app.functions) (all_declarations apps),
      )
      (or_else_assoc (last_with t (all_declarations apps))
        (last_with t (declarations app app.functions)) (get bytes_discrete t m))

pub incoming_of-Distinct :
    (apps : List ApplicationConfig) (m : AppRegistry)
    → Distinct bytes_discrete m
    → Distinct bytes_discrete (incoming_of apps m)
unfolding incoming_of
incoming_of-Distinct [] m d = d
incoming_of-Distinct (app ∷ apps) m d =
    incoming_of-Distinct apps _ (insert_functions-Distinct app app.functions m d)

get-insert_all :
    (t : Bytes) (l m : AppRegistry)
    → get bytes_discrete t (insert_all l m) ≡ or_else (last_with t l) (get bytes_discrete t m)
unfolding insert_all last_with
get-insert_all t [] m = refl
get-insert_all t ((k, e) ∷ l) m =
    ground
      (arith, get-insert_all t l (insert bytes_discrete k e m), get-insert bytes_discrete k t e m)

pub get-insert_all_empty :
    (t : Bytes) (l : AppRegistry)
    → Distinct bytes_discrete l
    → get bytes_discrete t (insert_all l []) ≡ get bytes_discrete t l
get-insert_all_empty t l d =
    get-insert_all t l []
    ∙ (rw (last_with-eq-get t l d) (unfold get in (or_else_empty (get bytes_discrete t l))))

insert_all-Distinct :
    (l m : AppRegistry) → Distinct bytes_discrete m → Distinct bytes_discrete (insert_all l m)
unfolding insert_all
insert_all-Distinct [] m d = d
insert_all-Distinct ((k, e) ∷ l) m d =
    insert_all-Distinct l _ (insert-Distinct bytes_discrete k e m d)

-- After a full snapshot the registry answers for a topic with the entry of the last function that the
-- snapshot declares for it, and with none where it declares none, whatever it held before; it holds
-- each topic once.
pub get_by_topic-apply_full_config :
    (t : Bytes) (apps : List ApplicationConfig) (m : AppRegistry)
    → (get_by_topic t (apply_full_config apps m).0 ≡ last_with t (all_declarations apps))
      × Distinct bytes_discrete (apply_full_config apps m).0
unfolding get_by_topic apply_full_config
get_by_topic-apply_full_config t apps m = (
  get-insert_all t (incoming_of apps []) []
      ∙ (rw
          (
            last_with-eq-get t (incoming_of apps []) (incoming_of-Distinct apps [] tt),
            get-incoming_of t apps [],
          )
          (unfold get in (or_else-none (last_with t (all_declarations apps))))),
  insert_all-Distinct (incoming_of apps []) [] tt,
)
