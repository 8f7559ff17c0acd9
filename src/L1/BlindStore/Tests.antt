-- ===== src/L1/BlindStore/Tests.antt =====
-- A store of two beacons.
use ipvn.Base.{◌≡◌, ◌≢◌, ap, String, str_eq, arith, true, false}

abbrev topic_a : String
topic_a = "a"

abbrev topic_b : String
topic_b = "b"

other_topic : topic_b ≢ topic_a
other_topic e = let differ : false ≡ true = ap (λ (t : String). str_eq t topic_a) e in ground arith
