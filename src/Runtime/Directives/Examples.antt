-- ===== src/Runtime/Directives/Examples.antt =====
-- A directive of the plane in pumps.rs on a concrete message.
use waddle_sdk.Prelude.{◌≡◌, refl, true, false, none, some, []}
use waddle_sdk.Prelude.Int.{pos}
use waddle_sdk.Runtime.Acks.{new}
use waddle_sdk.Runtime.Directives.{
  ClaimDirectiveKind, ServerMsg, Pump, ack_id, inject_all, forward_claim, forward,
}
use waddle_sdk.Runtime.Directives.Decoded.{decoded}
use waddle_sdk.Runtime.Directives.Delivery.{Delivered}
use waddle_sdk.Runtime.Directives.Answered.{forward-Delivered}

-- A grant directive with an id, on a plane that negotiated acks.
abbrev plane_pump : Pump
plane_pump = record {
  inject = [];
  groups = λ at. record { directive_id = "d7"; remaining = 1; rejection = none };
  next_group = 4;
  agent_task = none;
  progress = none;
}

abbrev grant : ServerMsg
grant =
    ServerMsg.claim ClaimDirectiveKind.grant
      (some (record { claim_id = "k"; source_name = "desk"; actor = none; self_initiated = false }))

forward-Delivered_example :
    Delivered
      (some "d8")
      (decoded none "ep-1" (pos 9) grant)
      plane_pump
      (forward plane_pump true (some "d8") none "ep-1" (pos 9) grant)
unfolding ack_id
forward-Delivered_example = forward-Delivered plane_pump true (some "d8") none "ep-1" (pos 9) grant

grant_waits_for_two :
    ((forward plane_pump true (some "d8") none "ep-1" (pos 9) grant).groups 4).remaining ≡ 2
unfolding forward forward_claim inject_all ack_id new
grant_waits_for_two = refl
