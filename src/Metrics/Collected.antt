-- ===== src/Metrics/Collected.antt =====
-- What a snapshot holds under a name.
use buildbox_common.Prelude.{
  ◌≡◌, refl, ap, subst, ◌∙◌, List, [], ◌∷◌, Option, none, some, if◌then◌else◌, arith, Text, text_eq,
  text_eq→eq, text_eq_refl, Bool-cases, Option-cases, inl, inr,
}
use buildbox_common.Prelude.Int.{ℤ, ◌+ℤ◌, +ℤ_assoc}
use buildbox_common.Metrics.{
  GaugeMetricValue, gauge_add, find_metric, set_metric, store, get_snapshot,
}

-- The value with a later one added, if there is one already.
pub add_to : {V : Type 0} → (V → V → V) → Option V → V → V
add_to add none v = v
add_to add (some u) v = add u v

find-set :
    {V : Type 0} (m : List (Text × V)) (name : Text) (u v : V) (key : Text)
    → find_metric m name ≡ some u
    → find_metric (set_metric m name v) key
      ≡ (if text_eq name key then some v else find_metric m key)
unfolding find_metric set_metric
find-set [] name u v key h = cc
find-set ((n, w) ∷ rest) name u v key h = elim (Bool-cases (text_eq n name)) [
  | inl e ↦ rw (text_eq→eq n name e, text_eq_refl name) (ground arith)
  | inr e ↦ elim (Bool-cases (text_eq name key)) [
    | inl d ↦ let same = text_eq→eq name key d in ground (arith, find-set rest name u v key)
    | inr d ↦ ground (arith, find-set rest name u v key)
  ]
]

-- What the name holds after a store: the sum under the stored name, and else what it held.
find-store :
    {V : Type 0} (add : V → V → V) (m : List (Text × V)) (name : Text) (v : V) (key : Text)
    → find_metric (store add m name v) key
      ≡ (if text_eq name key then some (add_to add (find_metric m key) v) else find_metric m key)
unfolding store
find-store add m name v key = elim (Bool-cases (text_eq name key)) [
  | inl d ↦
      subst
        (λ k.
          find_metric (store add m name v) k
          ≡ (if text_eq name k then some (add_to add (find_metric m k) v) else find_metric m k))
        (text_eq→eq name key d)
        (elim (Option-cases (find_metric m name)) [
          | inl e ↦ rw (e, store) (unfold find_metric add_to in ground (arith, text_eq_refl name))
          | inr (u, e) ↦
              rw (e, store) (unfold add_to in ground (arith, find-set m name u (add u v) name))
        ])
  | inr d ↦ elim (Option-cases (find_metric m name)) [
    | inl e ↦ rw (e, store) (unfold find_metric in ground arith)
    | inr (u, e) ↦ rw (e, store) (ground (arith, find-set m name u (add u v) key))
  ]
]

-- Stores, in the order in which they take the mutex.
pub store_all : {V : Type 0} → (V → V → V) → List (Text × V) → List (Text × V) → List (Text × V)
store_all add [] metrics = metrics
store_all add ((name, v) ∷ rest) metrics = store_all add rest (store add metrics name v)

-- The sum of what the stores say of a name, in their order, on top of what was there.
pub total_of : {V : Type 0} → (V → V → V) → List (Text × V) → Text → Option V → Option V
total_of add [] key sum = sum
total_of add ((name, v) ∷ rest) key sum =
    total_of add rest key (if text_eq name key then some (add_to add sum v) else sum)

find-store_all :
    {V : Type 0} (add : V → V → V) (events m : List (Text × V)) (key : Text)
    → find_metric (store_all add events m) key ≡ total_of add events key (find_metric m key)
unfolding store_all total_of
find-store_all add [] m key = refl
find-store_all add ((name, v) ∷ rest) m key =
    find-store_all add rest (store add m name v) key
    ∙ ap (total_of add rest key) (find-store add m name v key)

-- Whatever stores come before a snapshot of an empty collector, under whatever names, the snapshot
-- holds under each name the sum of the values stored with that name, in their order, or nothing if
-- there was none; and the stores after it add to an empty collector again.
pub get_snapshot-store_all :
    {V : Type 0} (add : V → V → V) (before after : List (Text × V)) (key : Text)
    → (find_metric (get_snapshot (store_all add before [])).0 key ≡ total_of add before key none)
      × (find_metric (store_all add after (get_snapshot (store_all add before [])).1) key
          ≡ total_of add after key none)
unfolding get_snapshot find_metric
get_snapshot-store_all add before after key =
    (find-store_all add before [] key, find-store_all add after [] key)

-- What a StatsD server does to the gauge it holds.
unfoldable pub apply_gauge : GaugeMetricValue → ℤ → ℤ
apply_gauge g held = if g.is_delta then held +ℤ g.value else g.value

apply-gauge_add :
    (a b : GaugeMetricValue) (held : ℤ)
    → apply_gauge (gauge_add a b) held ≡ apply_gauge b (apply_gauge a held)
unfolding apply_gauge gauge_add
apply-gauge_add a b held = ground (arith, +ℤ_assoc held a.value b.value)

-- The server's gauge after what one snapshot holds for it.
pub apply_held : Option GaugeMetricValue → ℤ → ℤ
apply_held none held = held
apply_held (some g) held = apply_gauge g held

-- The server's gauge after each of the values stored for it, one by one.
unfoldable pub apply_each : List (Text × GaugeMetricValue) → Text → ℤ → ℤ
apply_each [] key held = held
apply_each ((name, g) ∷ rest) key held =
    apply_each rest key (if text_eq name key then apply_gauge g held else held)

apply-add_to :
    (sum : Option GaugeMetricValue) (g : GaugeMetricValue) (held : ℤ)
    → apply_gauge (add_to gauge_add sum g) held ≡ apply_gauge g (apply_held sum held)
unfolding add_to apply_held
apply-add_to none g held = refl
apply-add_to (some a) g held = apply-gauge_add a g held

apply_held-total_of :
    (events : List (Text × GaugeMetricValue)) (key : Text) (sum : Option GaugeMetricValue)
    (held : ℤ)
    → apply_held (total_of gauge_add events key sum) held
      ≡ apply_each events key (apply_held sum held)
unfolding total_of apply_each apply_held apply_gauge
apply_held-total_of [] key sum held = refl
apply_held-total_of ((name, g) ∷ rest) key sum held = elim (Bool-cases (text_eq name key)) [
  | inl e ↦
      rw (e, total_of, apply_each)
        (apply_held-total_of rest key (some (add_to gauge_add sum g)) held
          ∙ ap (apply_each rest key) (apply-add_to sum g held))
  | inr e ↦ rw (e, total_of, apply_each) (apply_held-total_of rest key sum held)
]

-- Publishing the one gauge value that a collector has aggregated under a name leaves the server's
-- gauge where publishing each stored value, absolute or delta, in its turn would have left it.
pub gauge_snapshot :
    (events : List (Text × GaugeMetricValue)) (key : Text) (held : ℤ)
    → apply_held (find_metric (get_snapshot (store_all gauge_add events [])).0 key) held
      ≡ apply_each events key held
unfolding apply_held
gauge_snapshot events key held =
    ap (λ g. apply_held g held) (get_snapshot-store_all gauge_add events [] key).0
    ∙ apply_held-total_of events key none held
