-- ===== src/Wireless/Provider/Tests.antt =====
-- The unit tests of src/wireless/provider.rs, and the examples of the theorems about it.
use dorsche.Base.{
  [], ◌∷◌, ◌≡◌, ◌⊎◌, refl, none, some, ok, err, true, false, All, no_provider, no_fallback,
  if◌then◌else◌,
}
use dorsche.Wireless.Types.Kinds.{
  SessionType, le_unicast_software_encoding, le_unicast_hardware_encoding, sink, media,
  same_session_type,
}
use dorsche.Wireless.Types.Tests.{codec}
use dorsche.Wireless.Provider.{
  SessionRequest, CapabilityProvider, CapabilityRegistry, new, register, find, select,
  require_explicit_fallback, supports_codec, supports, default_accepts, software_capabilities,
  software_lc3_provider,
}
use dorsche.Wireless.Provider.Selection.{
  FirstAccepting, select_first, select-register, require_explicit_fallback_iff, register_all,
  register-require_explicit_fallback_iff, IsMember, IsPlain, select_keeps_type, Refuses,
}
use dorsche.Wireless.Provider.Software.{IsSoftwareUnicast, IsHostLc3, software_serves}

abbrev request : SessionType → SessionRequest
request t = record {
  session_type = t;
  direction = sink;
  context = media;
  codec = codec;
  require_multidirectional = false;
}

unfoldable registry : CapabilityRegistry
registry = register new software_lc3_provider

software_request : select registry (request le_unicast_software_encoding) ≡ ok software_capabilities
unfolding registry select register new find software_lc3_provider default_accepts supports
    supports_codec same_session_type
software_request = refl

hardware_request : select registry (request le_unicast_hardware_encoding) ≡ err no_provider
unfolding registry select register new find software_lc3_provider default_accepts supports
    supports_codec same_session_type
hardware_request = refl

fallback_missing :
    require_explicit_fallback registry (request le_unicast_hardware_encoding) none ≡ err no_fallback
unfolding require_explicit_fallback registry select register new find software_lc3_provider
    default_accepts supports supports_codec same_session_type
fallback_missing = refl

fallback_given :
    require_explicit_fallback registry
      (request le_unicast_hardware_encoding)
      (some (request le_unicast_software_encoding))
    ≡ ok software_capabilities
unfolding require_explicit_fallback registry select register new find software_lc3_provider
    default_accepts supports supports_codec same_session_type
fallback_given = refl

first_provider_selected :
    FirstAccepting registry.providers (request le_unicast_software_encoding) software_capabilities
first_provider_selected =
    (select_first registry (request le_unicast_software_encoding) software_capabilities).0
      software_request

fallback_served :
    FirstAccepting registry.providers (request le_unicast_hardware_encoding) software_capabilities
    ⊎ (All (Refuses (request le_unicast_hardware_encoding)) registry.providers
        × ((r : SessionRequest) × (some (request le_unicast_software_encoding) ≡ some r)
            × FirstAccepting registry.providers r software_capabilities))
fallback_served =
    (require_explicit_fallback_iff registry (request le_unicast_hardware_encoding)
        (some (request le_unicast_software_encoding)) software_capabilities).0
      fallback_given

filled_fallback :
    require_explicit_fallback
      (register_all new (software_lc3_provider ∷ []))
      (request le_unicast_hardware_encoding)
      (some (request le_unicast_software_encoding))
    ≡ ok software_capabilities
unfolding require_explicit_fallback select register new find software_lc3_provider default_accepts
    supports supports_codec same_session_type
filled_fallback = refl

abbrev lenient : CapabilityProvider
lenient = record { capabilities = software_capabilities; accepts = λ _. true }

register_last : select (register registry lenient) (request le_unicast_hardware_encoding) ≡ (
    if lenient.accepts (request le_unicast_hardware_encoding)
    then ok lenient.capabilities
    else err no_provider)
register_last =
    (select-register registry lenient (request le_unicast_hardware_encoding)).1 hardware_request

registry-IsPlain : All IsPlain registry.providers
unfolding registry register new software_lc3_provider
registry-IsPlain = ((λ r h. h), tt)

register-require_explicit_fallback_iff_example :
    FirstAccepting
      (software_lc3_provider ∷ [])
      (request le_unicast_hardware_encoding)
      software_capabilities
    ⊎ (All (Refuses (request le_unicast_hardware_encoding)) (software_lc3_provider ∷ [])
        × ((r : SessionRequest) × (some (request le_unicast_software_encoding) ≡ some r)
            × FirstAccepting (software_lc3_provider ∷ []) r software_capabilities))
register-require_explicit_fallback_iff_example =
    (register-require_explicit_fallback_iff (software_lc3_provider ∷ [])
        (request le_unicast_hardware_encoding) (some (request le_unicast_software_encoding))
        software_capabilities).0
      filled_fallback

kept_type : IsMember le_unicast_software_encoding software_capabilities.session_types
kept_type =
    select_keeps_type registry (request le_unicast_software_encoding) software_capabilities
      registry-IsPlain software_request

unicast_served : IsSoftwareUnicast le_unicast_software_encoding × IsHostLc3 codec
unfolding registry
unicast_served = (software_serves (request le_unicast_software_encoding)).0 software_request
