-- ===== src/Examples/Config.antt =====
-- The config keys of a VM at concrete values.
use qarax.Base.{◌≡◌, refl, true, false, none, some, [], ◌∷◌}
use qarax.VmConfig.{
  Json, end, field, bool, object, UuidText, ha_enabled, guest_agent_enabled,
  legacy_sandbox_exec_key, set_ha_enabled_config, set_guest_agent_config, set_failed_over_from,
  failed_over_from, get, lookup,
}
use qarax.VmConfig.Laws.{
  set_ha_enabled_round_trip, set_guest_agent_round_trip, set_failed_over_from_round_trip,
}

-- A UUID written as a text of one character.
abbrev unary_uuid : UuidText
unary_uuid = record {
  to_string = λ id. id ∷ [];
  parse_str = elim [ [] ↦ none | c ∷ rest ↦ some c ];
}

abbrev legacy : Json
legacy = object (field legacy_sandbox_exec_key (bool true) end)

legacy_enabled : guest_agent_enabled legacy ≡ true
unfolding guest_agent_enabled get lookup
legacy_enabled = refl

set_ha_enabled_round_trip_example :
    (ha_enabled (set_ha_enabled_config legacy true) ≡ true)
    × (guest_agent_enabled (set_ha_enabled_config legacy true) ≡ guest_agent_enabled legacy)
set_ha_enabled_round_trip_example = set_ha_enabled_round_trip legacy true

set_guest_agent_round_trip_example :
    (guest_agent_enabled (set_guest_agent_config legacy false) ≡ false)
    × (get (set_guest_agent_config legacy false) legacy_sandbox_exec_key ≡ none)
    × (ha_enabled (set_guest_agent_config legacy false) ≡ ha_enabled legacy)
set_guest_agent_round_trip_example = set_guest_agent_round_trip legacy false

set_failed_over_from_round_trip_example :
    let written = set_failed_over_from unary_uuid legacy (some 7) in
    (failed_over_from unary_uuid written ≡ some 7)
    × (ha_enabled written ≡ ha_enabled legacy)
    × (guest_agent_enabled written ≡ guest_agent_enabled legacy)
set_failed_over_from_round_trip_example =
    set_failed_over_from_round_trip unary_uuid (λ id. refl) legacy (some 7)
