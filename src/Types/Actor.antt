-- ===== src/Types/Actor.antt =====
-- waddle-core/crates/waddle-types/src/provenance.rs: who acts, and the origin of an action.
use waddle_sdk.Prelude.{Bool, true, false, Option, none, String}

pub data ActorKind : Type 0 where
  teleoperator site_operator agent policy system custom : ActorKind

abbrev pub same_kind : ActorKind → ActorKind → Bool
same_kind ActorKind.teleoperator ActorKind.teleoperator = true
same_kind ActorKind.site_operator ActorKind.site_operator = true
same_kind ActorKind.agent ActorKind.agent = true
same_kind ActorKind.policy ActorKind.policy = true
same_kind ActorKind.system ActorKind.system = true
same_kind ActorKind.custom ActorKind.custom = true
same_kind _ _ = false

pub record ActorRef : Type 0 where
  pub kind : ActorKind
  pub id : String
  pub display_name : String

unfoldable pub of_kind : ActorKind → ActorRef
of_kind kind = record { kind = kind; id = ""; display_name = "" }

pub data Provenance : Type 0 where
  policy teleop agent : Provenance
  custom : String → Provenance

unfoldable pub for_claim : ActorKind → String → Provenance
for_claim ActorKind.teleoperator source = Provenance.teleop
for_claim ActorKind.agent source = Provenance.agent
for_claim ActorKind.policy source = Provenance.policy
for_claim ActorKind.site_operator source = Provenance.custom source
for_claim ActorKind.system source = Provenance.custom source
for_claim ActorKind.custom source = Provenance.custom source

pub record ProvenanceTag : Type 0 where
  pub provenance : Provenance
  pub actor : Option ActorRef
  pub bypass_approval : Bool

-- The tag of an unclaimed action.
unfoldable pub policy_tag : ProvenanceTag
policy_tag = record { provenance = Provenance.policy; actor = none; bypass_approval = false }
