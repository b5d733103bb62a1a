-- ===== src/Metrics/Tests.antt =====
-- A gauge that is set, moved and read.
use buildbox_common.Prelude.{
  ◌++◌, ◌%◌, ◌^◌, ◌<◌, arith, ltb, if◌then◌else◌, ◌≡◌, refl, Bool, true, false, List, [], ◌∷◌,
  Option, none, some, Text, codes,
}
use buildbox_common.Prelude.Int.{ℤ, pos, negsuc}
use buildbox_common.Metrics.{GaugeMetricValue, gauge_add, count_add, find_metric, get_snapshot}
use buildbox_common.Numbers.{parsed, digits_value}
use buildbox_common.Metrics.Config.{
  MetricsConfig, default_config, parse_host_port, metrics_parser, from_config, udp,
}
use buildbox_common.Metrics.Config.Port.{metrics_parser-from_config}
use buildbox_common.Metrics.Collected.{
  store_all, total_of, apply_held, apply_each, get_snapshot-store_all, gauge_snapshot,
}

abbrev delta : ℤ → GaugeMetricValue
delta v = record { value = v; is_delta = true }

abbrev events : List (Text × GaugeMetricValue)
events =
    (codes "jobs", delta (pos 3))
    ∷ (codes "jobs", record { value = pos 10; is_delta = false })
    ∷ (codes "idle", delta (pos 1))
    ∷ (codes "jobs", delta (negsuc 3))
    ∷ []

applied : apply_each events (codes "jobs") (pos 100) ≡ pos 6
unfolding apply_each buildbox_common.Prelude.text_eq buildbox_common.Metrics.Collected.apply_gauge
    buildbox_common.Prelude.Int.◌+ℤ◌
applied = refl

gauge_snapshot_example :
    apply_held
      (find_metric (get_snapshot (store_all gauge_add events [])).0 (codes "jobs"))
      (pos 100)
    ≡ apply_each events (codes "jobs") (pos 100)
gauge_snapshot_example = gauge_snapshot events (codes "jobs") (pos 100)

abbrev counts : List (Text × ℤ)
counts = (codes "hits", pos 2) ∷ (codes "hits", pos 5) ∷ []

get_snapshot-store_all_example :
    (find_metric (get_snapshot (store_all count_add counts [])).0 (codes "hits")
      ≡ total_of count_add counts (codes "hits") none)
    × (find_metric
          (store_all count_add counts (get_snapshot (store_all count_add counts [])).1)
          (codes "hits")
        ≡ total_of count_add counts (codes "hits") none)
get_snapshot-store_all_example = get_snapshot-store_all count_add counts counts (codes "hits")

abbrev port : Text
port = codes "9125"

-- A number past 2^32 passes for the port that it leaves.
port_wraps : parse_host_port (codes "cas:4294967376") ≡ parsed (codes "cas", 80)
unfolding parse_host_port buildbox_common.StringUtils.is_space
port_wraps = refl

metrics_parser-from_config_example :
    let server = codes "cas" ++ b':' ∷ port in
    let config' : MetricsConfig = record default_config { enable = true; udp_server = server } in
    (metrics_parser (codes "metrics-mode") (codes "udp://" ++ server) default_config
      ≡ parsed config')
    × (from_config config'
        ≡ parsed (record {
          publish_method = udp;
          publish_path = codes "cas";
          publish_port = digits_value 0 port;
        }))
unfolding digits_value
metrics_parser-from_config_example =
    metrics_parser-from_config default_config b'c' (codes "as") b'9' b'1' (codes "25")
      (refl, (refl, (refl, (refl, tt)))) (omega arith) (omega arith)
