-- ===== src/Replica/Tests.antt =====
-- Two replicas of one counter.
use gql_ddd_inventory.Prelude.{◌≡◌, refl, [], ◌∷◌}
use gql_ddd_inventory.Prelude.Maps.{lookup, insert}
use gql_ddd_inventory.Replica.{
  PnCounterState, get_value, increment, decrement, create_stock_counter, merge, merge_counts,
  merge_first, merge_second,
}
use gql_ddd_inventory.Replica.Counts.{AreDistinct}
use gql_ddd_inventory.Replica.View.{Replica, view, merged, counted_up, counted_down, value, fresh}
use gql_ddd_inventory.Replica.View.Join.{merged-IsJoin}

-- Node 1 took in 10 and gave out 2.
abbrev here : PnCounterState
here = record { sku = 7; increments = (1, 10) ∷ []; decrements = (1, 2) ∷ [] }

-- Node 2 knows of 6 of these, and took in 5.
abbrev there : PnCounterState
there = record { sku = 7; increments = (2, 5) ∷ (1, 6) ∷ []; decrements = [] }

merged_test : get_value (merge here there) ≡ 13
unfolding get_value merge merge_counts merge_first merge_second lookup insert
merged_test = refl

counting_test : get_value (decrement (increment (create_stock_counter 7) 1 5) 1 2) ≡ 3
unfolding get_value increment decrement create_stock_counter lookup insert
counting_test = refl

here_distinct : AreDistinct here.increments × AreDistinct here.decrements
unfolding lookup
here_distinct = ((refl, tt), (refl, tt))

there_distinct : AreDistinct there.increments × AreDistinct there.decrements
unfolding lookup
there_distinct = ((refl, (refl, tt)), tt)

abbrev here_replica : Replica 7
here_replica = record {
  state = here;
  of_sku = refl;
  ups = here_distinct.0;
  downs = here_distinct.1;
}

abbrev there_replica : Replica 7
there_replica = record {
  state = there;
  of_sku = refl;
  ups = there_distinct.0;
  downs = there_distinct.1;
}

merged-IsJoin_example :
    (merged (view here_replica) (view there_replica)
      ≡ merged (view there_replica) (view here_replica))
    × (merged (merged (view here_replica) (view there_replica)) (view here_replica)
        ≡ merged (view here_replica) (merged (view there_replica) (view here_replica)))
    × (merged (view here_replica) (view here_replica) ≡ view here_replica)
    × (merged (view (fresh 7)) (view here_replica) ≡ view here_replica)
    × (merged (view here_replica) (counted_up 1 5 (view here_replica))
        ≡ counted_up 1 5 (view here_replica))
    × (merged (view here_replica) (counted_down 1 5 (view here_replica))
        ≡ counted_down 1 5 (view here_replica))
    × (value (merged (view here_replica) (view there_replica)) ≡ get_value (merge here there))
merged-IsJoin_example =
    merged-IsJoin (view here_replica) (view there_replica) (view here_replica) here_replica
      there_replica 1 5
