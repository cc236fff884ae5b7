-- ===== src/VmConfig/Laws.antt =====
-- Round trips of the config keys: what a setter writes its getter reads, and other keys keep their
-- values.
use qarax.Base.{
  ℕ, ◌≡◌, refl, Bool, Option, none, some, if◌then◌else◌, Text, ◌==◌, text_ord, ==_iff, arith,
}
use qarax.VmConfig.{
  Json, Fields, end, field, object, lookup, insert, remove, get, legacy_sandbox_exec_key,
  guest_agent_enabled, object_or_default, set_guest_agent_config, ha_enabled, set_ha_enabled_config,
  UuidText, failed_over_from, set_failed_over_from,
}

pub lookup-insert :
    (k j : Text) (v : Json) (m : Fields)
    → lookup j (insert k v m) ≡ (if k == j then some v else lookup j m)
unfolding lookup insert
lookup-insert k j v end = refl
lookup-insert k j v (field i w m) =
    ground (arith, ==_iff k j, ==_iff i k, ==_iff i j, lookup-insert k j v m)

pub lookup-remove :
    (k j : Text) (m : Fields) → lookup j (remove k m) ≡ (if k == j then none else lookup j m)
unfolding lookup remove
lookup-remove k j end = ground arith
lookup-remove k j (field i w m) =
    ground (arith, ==_iff k j, ==_iff i k, ==_iff i j, lookup-remove k j m)

pub lookup-object_or_default :
    (k : Text) (config : Json) → lookup k (object_or_default config) ≡ get config k
unfolding lookup get object_or_default
lookup-object_or_default k (object m) = refl
lookup-object_or_default k Json.null = refl
lookup-object_or_default k _ = refl

pub get-object : (k : Text) (m : Fields) → get (object m) k ≡ lookup k m
unfolding get
get-object k m = refl

ruleset config_laws = (get-object, lookup-insert, lookup-remove, lookup-object_or_default)

-- Enabling or disabling high availability is read back, whatever the config was, and the guest
-- agent's setting stays.
pub set_ha_enabled_round_trip :
    (config : Json) (enabled : Bool)
    → (ha_enabled (set_ha_enabled_config config enabled) ≡ enabled)
      × (guest_agent_enabled (set_ha_enabled_config config enabled) ≡ guest_agent_enabled config)
unfolding ha_enabled set_ha_enabled_config guest_agent_enabled
set_ha_enabled_round_trip config enabled = (simp config_laws, simp config_laws)

-- The same for the guest agent. The legacy key, which would otherwise be read where the new key is
-- missing, is gone from the config.
pub set_guest_agent_round_trip :
    (config : Json) (enabled : Bool)
    → (guest_agent_enabled (set_guest_agent_config config enabled) ≡ enabled)
      × (get (set_guest_agent_config config enabled) legacy_sandbox_exec_key ≡ none)
      × (ha_enabled (set_guest_agent_config config enabled) ≡ ha_enabled config)
unfolding ha_enabled set_guest_agent_config guest_agent_enabled
set_guest_agent_round_trip config enabled = (simp config_laws, simp config_laws, simp config_laws)

-- Where the identifier parser inverts the printer, the marker of a failed-over VM is read back,
-- set or cleared, whatever the config was, and the other settings stay.
pub set_failed_over_from_round_trip :
    (uuid : UuidText)
    → ((id : ℕ) → uuid.parse_str (uuid.to_string id) ≡ some id)
    → (config : Json) (source : Option ℕ)
    → let written = set_failed_over_from uuid config source in
      (failed_over_from uuid written ≡ source)
      × (ha_enabled written ≡ ha_enabled config)
      × (guest_agent_enabled written ≡ guest_agent_enabled config)
unfolding failed_over_from set_failed_over_from ha_enabled guest_agent_enabled
set_failed_over_from_round_trip uuid inverse config (some id) =
    (simp (config_laws, inverse), simp config_laws, simp config_laws)
set_failed_over_from_round_trip uuid inverse config none =
    (simp config_laws, simp config_laws, simp config_laws)
