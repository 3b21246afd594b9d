-- ===== src/Tests/Lossy.antt =====
-- The lossy channel at a concrete run, with natural numbers for the draws.
use efcp.Prelude.{ℕ, ◌≡◌, refl, ltb, leb, List, [], ◌∷◌, ◌++◌}
use efcp.Outcome.{ok}
use efcp.TestChannel.{Float, LossyChannelBuilder, new, recv}
use efcp.TestChannel.Runs.{send_all, below, recv-send_all}

abbrev tenths : Float
tenths = record { F = ℕ; less = ltb; at_most = leb; nought = 0; one = 10 }

-- The first packet is lost, the second comes once, the third twice.
abbrev calls : List (ℕ × ℕ)
calls = (9, 1) ∷ (4, 2) ∷ (1, 3) ∷ []

recv-send_all_example :
    recv tenths ℕ (send_all tenths ℕ calls (new tenths ℕ 5 2)).1
    ≡ (ok 2, record { px = 5; pq = 2; delayed = []; loopback = (3 ∷ []) ++ below tenths ℕ 2 calls })
unfolding below
recv-send_all_example = recv-send_all tenths ℕ 5 2 calls 2 (3 ∷ []) refl

abbrev pair : LossyChannelBuilder tenths ℕ
unfolding new
pair = record { px = 5; pq = 2; rx = new tenths ℕ 5 2; tx = new tenths ℕ 5 2 }
