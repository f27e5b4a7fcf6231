-- ===== src/State/Statistics/Laws.antt =====
-- What the request for an interface's statistics is answered.
use sweetcomb.Prelude.{
  ℕ, ◌≡◌, refl, Text, codes, Option, none, some, List, [], ◌∷◌, ◌++◌, is_empty, false, arith,
}
use sweetcomb.Prelude.Outcome.{value, bind_value}
use sweetcomb.Sysrepo.{SrError, ok, Sysrepo}
use sweetcomb.Vom.{Vom}
use sweetcomb.State.Values.{Value, uint64_data, Buffer, Filling, Reply, nothing, answer}
use sweetcomb.State.Values.Laws.{Holds, put_all, put_all-new}
use sweetcomb.State.Statistics.{Stats, put_stats, answer_stats, interface_statistics_cb}

abbrev counter : Text → ℕ → Value
counter x n = record { xpath = x; datum = uint64_data n }

-- The eight counters.
abbrev pub stats_values : Text → Stats → List Value
stats_values xpath stats =
    counter (xpath ++ codes "/in-octets") stats.rx_bytes
    ∷ counter (xpath ++ codes "/in-unicast-pkts") stats.rx_unicast_packets
    ∷ counter (xpath ++ codes "/in-broadcast-pkts") stats.rx_broadcast_packets
    ∷ counter (xpath ++ codes "/in-multicast-pkts") stats.rx_multicast_packets
    ∷ counter (xpath ++ codes "/out-octets") stats.tx_bytes
    ∷ counter (xpath ++ codes "/out-unicast-pkts") stats.tx_unicast_packets
    ∷ counter (xpath ++ codes "/out-broadcast-pkts") stats.tx_broadcast_packets
    ∷ counter (xpath ++ codes "/out-multicast-pkts") stats.tx_multicast_packets
    ∷ []

put_stats-put_all :
    (xpath : Text) (stats : Stats) (s : Filling)
    → put_stats xpath stats s ≡ put_all (stats_values xpath stats) s
unfolding put_stats put_all
put_stats-put_all xpath stats s = simp (bind_value, put_all)

-- What the answer to a request for the statistics of a named interface must be.
abbrev pub StatsAnswer :
    {I : Type 0} → (I → Stats) → Text → SrError → Option I → SrError × Reply → Type 0
StatsAnswer get_stats xpath rc none r = r ≡ (ok, nothing)
StatsAnswer get_stats xpath ok (some i) r =
    (b : Buffer) × (r ≡ (ok, answer b 8))
    × (b.capacity ≡ 8)
    × Holds b 0 (stats_values xpath (get_stats i))
StatsAnswer get_stats xpath rc (some i) r = r ≡ (rc, nothing)

answers_with :
    {W I P A : Type 0} (R : Sysrepo) (V : Vom W I P A) (get_stats : I → Stats) (xpath : Text)
    (rc : SrError) (found : Option I)
    → R.new_values 8 ≡ rc
    → (r : SrError × Reply) × (answer_stats R V get_stats xpath found ≡ value r)
      × StatsAnswer get_stats xpath rc found r
unfolding answer_stats
answers_with R V get_stats xpath rc none h = (_, refl, refl)
answers_with R V get_stats xpath ok (some i) h =
    let (b, e, cap, holds) = put_all-new 8 (stats_values xpath (get_stats i)) (omega arith) in
    (_, rw (h, put_stats-put_all, e), (b, refl, cap, holds))
answers_with R V get_stats xpath rc (some i) h = (_, rw h, refl)

-- A request for the statistics of a named interface always gets an answer, and never writes outside
-- the array: the eight counters of the interface, in an array of eight values, if VOM knows the
-- interface and the array can be allocated; no values otherwise, with SR_ERR_OK for an unknown
-- interface and the allocation's error if it fails.
pub interface_statistics_cb_answers :
    {W I P A : Type 0} (R : Sysrepo) (V : Vom W I P A) (get_stats : I → Stats) (xpath name : Text)
    (w : W)
    → R.key_value xpath (codes "interface") (codes "name") ≡ some name
    → is_empty name ≡ false
    → (r : SrError × Reply) × (interface_statistics_cb R V get_stats xpath w ≡ value r)
      × StatsAnswer get_stats xpath (R.new_values 8) (V.find name w) r
unfolding interface_statistics_cb
interface_statistics_cb_answers R V get_stats xpath name w named full =
    let (r, e, a) = answers_with R V get_stats xpath (R.new_values 8) (V.find name w) refl in
    (r, rw (interface_statistics_cb, named, full, e), a)
