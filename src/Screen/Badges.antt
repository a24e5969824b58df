-- ===== src/Screen/Badges.antt =====
-- portal/src/components/common/StatusBadge.tsx and TagBadge.tsx, and the roles' badge of
-- portal/src/app/(app)/admin/users/page.tsx: a status, a tag or a role as a label with a colour.
use mutell_demo.Prelude.{String, none, some, List, [], ◌∷◌, lookup, if◌then◌else◌, ◌==◌}
use Prim.Native.Char.{code}
use mutell_demo.Screen.Colors.{
  Color, primary, success, error, warning, info, light, Tone, orange, red, purple, yellow, blue,
  gray,
}

pub record Badge : Type 0 where
  pub color : Color
  pub label : String

abbrev badge_of : Color → String → Badge
badge_of color label = record { color = color; label = label }

-- `statusConfig`
abbrev pub status_config : List (String × Badge)
status_config =
    ("active", badge_of success "Active")
    ∷ ("evaluated", badge_of success "Evaluated")
    ∷ ("ready", badge_of success "Ready")
    ∷ ("suspended", badge_of error "Suspended")
    ∷ ("failed", badge_of error "Failed")
    ∷ ("revoked", badge_of error "Revoked")
    ∷ ("deleted", badge_of error "Deleted")
    ∷ ("pending", badge_of warning "Pending")
    ∷ ("processing", badge_of info "Processing")
    ∷ ("generating", badge_of info "Generating")
    ∷ ("invited", badge_of primary "Invited")
    ∷ ("unclear", badge_of warning "Unclear")
    ∷ ("accepted", badge_of info "Accepted")
    ∷ []

-- `StatusBadge`
unfoldable pub status_badge : String → Badge
unfolding lookup
status_badge status = elim (lookup status status_config) as (λ x. Badge) [
  | none ↦ badge_of light status
  | some config ↦ config
]

-- `TAG_STYLES`, the colour alone.
abbrev pub tag_styles : List (String × Tone)
tag_styles =
    ("items_unavailable", orange)
    ∷ ("swearing", red)
    ∷ ("off_topic", purple)
    ∷ ("low_politeness", yellow)
    ∷ ("fabrication_detected", red)
    ∷ ("policy_violation", red)
    ∷ ("abusive_language", red)
    ∷ ("escalation_needed", blue)
    ∷ ("data_privacy_concern", gray)
    ∷ []

-- `TAG_LABELS`
abbrev pub tag_labels : List (String × String)
tag_labels =
    ("items_unavailable", "Unavailable")
    ∷ ("swearing", "Swearing")
    ∷ ("off_topic", "Off Topic")
    ∷ ("low_politeness", "Low Politeness")
    ∷ ("fabrication_detected", "Fabrication")
    ∷ ("policy_violation", "Policy Violation")
    ∷ ("abusive_language", "Abusive")
    ∷ ("escalation_needed", "Escalation")
    ∷ ("data_privacy_concern", "Privacy")
    ∷ []

-- `s.replace(/_/g, " ")`
unfoldable pub spaced : String → String
spaced String.[] = String.[]
spaced (String.◌∷◌ c s) = String.◌∷◌ (if code c == 95 then " " else c) (spaced s)

-- `s.replace("_", " ")`: the first underscore alone.
unfoldable pub first_spaced : String → String
first_spaced String.[] = String.[]
first_spaced (String.◌∷◌ c s) =
    let rest = first_spaced s in if code c == 95 then String.◌∷◌ " " s else String.◌∷◌ c rest

-- `TagBadge`
unfoldable pub tag_badge : String → Tone × String
unfolding lookup spaced
tag_badge tag = (
  elim (lookup tag tag_styles) as (λ x. Tone) [ none ↦ gray | some tone ↦ tone ],
  elim (lookup tag tag_labels) as (λ x. String) [ none ↦ spaced tag | some label ↦ label ],
)

-- `roleColor`
unfoldable pub role_color : String → Color
unfolding lookup
role_color role =
    elim (lookup role (
        ("super_admin", primary)
        ∷ ("tenant_admin", success)
        ∷ ("manager", warning)
        ∷ ("viewer", info)
        ∷ []))
      as (λ x. Color) [ none ↦ light | some color ↦ color ]
