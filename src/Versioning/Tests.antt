-- ===== src/Versioning/Tests.antt =====
-- The upcaster chain on an event type with two steps, registered in the wrong order.
use go_mink.Base.{◌≡◌, refl, none, some, [], ◌∷◌, arith, select}
use go_mink.Base.Int.{pos}
use go_mink.Adapters.Types.{Metadata}
use go_mink.Versioning.{
  Upcaster, UpcasterChain, returned, register, add_upcaster, has_from_version, sort_into,
  insert_upcaster, registered, validate, validate_loop, find_gap, latest_version, finished,
  upcast_chain, upcast_loop, safe_upcast, new_upcaster_chain,
}
use go_mink.Base.Dict.{lookup, insert}
use go_mink.Versioning.Chain.{IsOrdered, register_all, register_all-IsOrdered}
use go_mink.Versioning.Upcasting.{Leads, apply_all, is_ahead, upcast_chain-Leads}
use go_mink.Versioning.Repeat.{upcast_chain_twice}

abbrev no_metadata : Metadata
no_metadata = record {
  correlation_id = "";
  causation_id = "";
  user_id = "";
  tenant_id = "";
  custom = none;
}

abbrev first_step : Upcaster
first_step = record {
  event_type = "OrderPlaced";
  from_version = pos 1;
  to_version = pos 2;
  upcast = λ body metadata. returned (some (1 ∷ []));
}

abbrev second_step : Upcaster
second_step = record {
  event_type = "OrderPlaced";
  from_version = pos 2;
  to_version = pos 3;
  upcast = λ body metadata. returned (some (2 ∷ []));
}

abbrev chain : UpcasterChain
chain = register_all new_upcaster_chain (second_step ∷ first_step ∷ [])

chain-IsOrdered : IsOrdered chain
chain-IsOrdered =
    register_all-IsOrdered (second_step ∷ first_step ∷ []) (omega arith, (omega arith, tt))

register_all-IsOrdered_example : IsOrdered chain
register_all-IsOrdered_example =
    register_all-IsOrdered (second_step ∷ first_step ∷ []) (omega arith, (omega arith, tt))

upcast_chain-Leads_example :
    Leads "OrderPlaced"
      (upcast_chain chain "OrderPlaced" (pos 1) none no_metadata)
      (apply_all (select (is_ahead (pos 1)) (registered chain "OrderPlaced")) none no_metadata)
      (latest_version chain "OrderPlaced")
unfolding register add_upcaster has_from_version sort_into insert_upcaster registered validate
    validate_loop find_gap latest_version lookup insert
upcast_chain-Leads_example =
    upcast_chain-Leads chain "OrderPlaced" first_step (second_step ∷ []) 1 3 none no_metadata
      chain-IsOrdered refl refl (omega arith) refl (omega arith)

upcast_chain_twice_example :
    upcast_chain chain "OrderPlaced" (pos 3) (some (2 ∷ [])) no_metadata
    ≡ finished (some (2 ∷ [])) (pos 3)
unfolding register add_upcaster has_from_version sort_into insert_upcaster registered lookup insert
    upcast_chain upcast_loop safe_upcast
upcast_chain_twice_example =
    upcast_chain_twice chain "OrderPlaced" (pos 2) (pos 3) none (some (2 ∷ [])) no_metadata
      no_metadata chain-IsOrdered refl
