-- ===== src/Metrics.antt =====
-- The metric values and their collectors (buildbox-common/buildboxcommonmetrics: gaugemetricvalue.cpp,
-- countingmetricvalue.cpp, metriccollector.h). A map from names is a list of pairs: the order in which
-- an `unordered_map` is walked is not modelled. A collector's operations hold its mutex from start to
-- end, so they are functions of its map. Sums are those of the integers: the code's are of `int64_t`,
-- and overflow there is undefined.
pub mod Collected
pub mod Config
mod Tests
use buildbox_common.Prelude.{
  ◌≡◌, refl, Bool, true, false, List, [], ◌∷◌, ◌++◌, Option, none, some, if◌then◌else◌, Text,
  text_eq,
}
use buildbox_common.Prelude.Int.{ℤ, ◌+ℤ◌}

pub record GaugeMetricValue : Type 0 where
  pub value : ℤ
  pub is_delta : Bool

-- `GaugeMetricValue::operator+=`
unfoldable pub gauge_add : GaugeMetricValue → GaugeMetricValue → GaugeMetricValue
gauge_add this other =
    if other.is_delta
    then record this { value = this.value +ℤ other.value }
    else record this { value = other.value; is_delta = false }

-- `CountingMetricValue::operator+=`
unfoldable pub count_add : ℤ → ℤ → ℤ
count_add this other = this +ℤ other

-- `d_metrics.find(name)`
unfoldable pub find_metric : {V : Type 0} → List (Text × V) → Text → Option V
find_metric [] name = none
find_metric ((n, v) ∷ rest) name =
    let found = find_metric rest name in if text_eq n name then some v else found

-- `entry->second = v`, on the entry of that name.
unfoldable pub set_metric : {V : Type 0} → List (Text × V) → Text → V → List (Text × V)
set_metric [] name v = []
set_metric ((n, u) ∷ rest) name v =
    let set = set_metric rest name v in if text_eq n name then (n, v) ∷ rest else (n, u) ∷ set

-- `store` of an aggregatable type whose `+=` is `add`.
unfoldable pub store : {V : Type 0} → (V → V → V) → List (Text × V) → Text → V → List (Text × V)
unfolding find_metric set_metric
store add metrics name value = elim (find_metric metrics name) [
  | some entry ↦ set_metric metrics name (add entry value)
  | none ↦ (name, value) ∷ metrics
]

-- `getSnapshot`, of both kinds of collector: what it returns, and what it leaves.
unfoldable pub get_snapshot : {A : Type 0} → List A → List A × List A
get_snapshot metrics = (metrics, [])

-- `store` of a type that is not aggregatable.
unfoldable pub store_each : {V : Type 0} → List (Text × V) → Text → V → List (Text × V)
store_each metrics name value = metrics ++ ((name, value) ∷ [])
