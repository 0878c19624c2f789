-- ===== src/Lease/Tests.antt =====
-- Claims and releases on a concrete store.
use we_chat_ai.Base.{
  arith, All, ◌≤◌, ◌≡◌, refl, none, List, [], ◌∷◌, Text, units, text_discrete, length,
}
use we_chat_ai.JsMap.{get, set, delete}
use we_chat_ai.Lease.Store.{
  Store, set_nx, set_all_nx, del_all, claim_batch, claim_loop, claim_bot_leases, release_bot_lease,
}
use we_chat_ai.Lease.Claims.{KeepsLeases, claim_bot_leases-keeps}
use we_chat_ai.Lease.Complete.{IsHeld, claim_bot_leases-IsHeld}
use we_chat_ai.Lease.Release.{claimed_after_expiry, release_bot_lease-race}

abbrev one_lease : Store
one_lease = record {
  leases = (units "a", units "north") ∷ [];
  worker_bots = (units "north", units "a") ∷ [];
}

abbrev bots : List Text
bots = units "a" ∷ units "b" ∷ units "c" ∷ units "d" ∷ []

-- The first bot is taken, and one of the three left is beyond the two slots.
claimed : (claim_bot_leases (units "south") 2 bots one_lease).1 ≡ units "b" ∷ units "c" ∷ []
unfolding claim_bot_leases claim_loop claim_batch set_all_nx set_nx del_all get set delete
    text_discrete
claimed = refl

claim_bot_leases-keeps_example :
    (length (claim_bot_leases (units "south") 2 bots one_lease).1 ≤ 2)
    × KeepsLeases one_lease (claim_bot_leases (units "south") 2 bots one_lease).0
claim_bot_leases-keeps_example = claim_bot_leases-keeps (units "south") 2 bots one_lease

three_claimed : length (claim_bot_leases (units "south") 5 bots one_lease).1 ≡ 3
unfolding claim_bot_leases claim_loop claim_batch set_all_nx set_nx del_all get set delete
    text_discrete
three_claimed = refl

claim_bot_leases-IsHeld_example :
    All (IsHeld (claim_bot_leases (units "south") 5 bots one_lease).0.leases) bots
claim_bot_leases-IsHeld_example =
    claim_bot_leases-IsHeld (units "south") 5 bots one_lease (omega (arith, three_claimed))

release_bot_lease-race_example :
    ((claimed_after_expiry (units "south") 3 (units "a") one_lease).1 ≡ units "a" ∷ [])
    × (get text_discrete
          (units "a")
          (release_bot_lease
            (units "north")
            (units "a")
            (λ s. (claimed_after_expiry (units "south") 3 (units "a") s).0)
            one_lease).leases
        ≡ none)
unfolding get text_discrete
release_bot_lease-race_example =
    release_bot_lease-race (units "north") (units "a") (units "south") 3 one_lease refl
      (omega arith)
