-- ===== src/Components/Tests.antt =====
-- Components found in a small configuration, and an instance of the theorem.
use otel_hive.Base.{◌≡◌, refl, [], ◌∷◌, ◌++◌, map, All}
use otel_hive.Text.{Text, text, split, trim, text_eq, starts_with}
use otel_hive.Components.{YamlComponent, parse_yaml_components}
use otel_hive.Components.Headers.{FoundIn}
use otel_hive.Components.Lines.{Ascending, parse_yaml_components-FoundIn}

-- receivers:
--   otlp:
--     protocols:
-- service:
abbrev sample : Text
sample =
    text "receivers:"
    ++ (10 ∷ text "  otlp:" ++ (10 ∷ text "    protocols:" ++ (10 ∷ text "service:")))

-- The key below the component is found as a component of its own.
nested_key :
    map (λ (c : YamlComponent). c.name) (parse_yaml_components sample)
    ≡ text "otlp" ∷ text "protocols" ∷ []
unfolding parse_yaml_components split trim text_eq starts_with
nested_key = refl

parse_yaml_components-FoundIn_example :
    All (FoundIn (split 10 sample)) (parse_yaml_components sample)
    × Ascending (parse_yaml_components sample)
parse_yaml_components-FoundIn_example = parse_yaml_components-FoundIn sample
