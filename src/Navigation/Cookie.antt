-- ===== src/Navigation/Cookie.antt =====
-- utils.ts: getCookie reads back what the browser writes.
use otel_hive.Base.{
  ◌≡◌, refl, ap, ◌∙◌, false, Option, none, some, List, [], ◌∷◌, ◌++◌, All, ◌==◌, arith,
}
use otel_hive.Text.{Text, truthy, starts_with, split}
use otel_hive.Text.Laws.{split-cons}
use otel_hive.Navigation.{parts_from, before_semicolon, last_of_two, separator, get_cookie}
use otel_hive.Navigation.Parts.{
  Lacks, more_cookies, cookie_text, IsOther, onto, others_parts, parts_of_cookies, found_parts,
}

split_here : (s : Text) → (rest : List Text) × (split 59 (59 ∷ s) ≡ [] ∷ rest)
unfolding split
split_here s = let (first, rest, e) = split-cons 59 s in (first ∷ rest, rw e refl)

split_value :
    (v : Text) (jar : List (Text × Text))
    → Lacks 59 v
    → (rest : List Text) × (split 59 (v ++ more_cookies jar) ≡ v ∷ rest)
unfolding split
split_value [] [] h = ([], refl)
split_value [] ((k, v) ∷ jar) h = split_here (32 ∷ (k ++ (61 ∷ (v ++ more_cookies jar))))
split_value (c ∷ v) jar h =
    let (rest, e) = split_value v jar h.1 in
    let no : (c == 59) ≡ false = ground arith in (rest, rw (e, no) refl)

before_semicolon_value :
    (v : Text) (jar : List (Text × Text))
    → Lacks 59 v
    → before_semicolon (v ++ more_cookies jar) ≡ truthy (some v)
unfolding before_semicolon
before_semicolon_value v jar h =
    let (rest, e) = split_value v jar h in rw (e, before_semicolon) refl

last_part : Text × List Text → Option Text
last_part (part, parts) = last_of_two (part ∷ parts)

get_cookie-parts :
    (p : Text × Text) (jar : List (Text × Text)) (name : Text)
    → get_cookie (cookie_text (p ∷ jar)) name
      ≡ last_part (parts_from (separator name) 0 (more_cookies (p ∷ jar)))
unfolding get_cookie last_part
get_cookie-parts p jar name = refl

get_cookie-append :
    (before after : List (Text × Text)) (p : Text × Text) (name : Text)
    → get_cookie (cookie_text (before ++ (p ∷ after))) name
      ≡ last_part (parts_from (separator name) 0 (more_cookies (before ++ (p ∷ after))))
get_cookie-append [] after p name = get_cookie-parts p after name
get_cookie-append (q ∷ before) after p name = get_cookie-parts q (before ++ (p ∷ after)) name

get_cookie-nil : (name : Text) → get_cookie [] name ≡ none
unfolding get_cookie starts_with
get_cookie-nil [] = refl
get_cookie-nil (c ∷ name) = refl

get_cookie_absent :
    (name : Text) (jar : List (Text × Text))
    → Lacks 61 name
    → All (IsOther name) jar
    → get_cookie (cookie_text jar) name ≡ none
unfolding last_part
get_cookie_absent name [] j h = get_cookie-nil name
get_cookie_absent name (p ∷ jar) j h =
    get_cookie-parts p jar name ∙ ap last_part (parts_of_cookies name (p ∷ jar) j h)

-- The browser's text for cookies, of which one has the given name, reads back as the value of that one,
-- or as null where it is empty, and as null where no cookie has the name. The values hold no
-- semicolon, and the names neither that nor an equals sign.
pub get_cookie-cookie_text :
    (name v : Text) (before after : List (Text × Text))
    → Lacks 61 name
    → Lacks 59 v
    → All (IsOther name) before
    → All (IsOther name) after
    → (get_cookie (cookie_text (before ++ ((name, v) ∷ after))) name ≡ truthy (some v))
      × (get_cookie (cookie_text before) name ≡ none)
unfolding last_part
get_cookie-cookie_text name v before after j lacks h k =
    let parts =
      others_parts name before ((name, v) ∷ after) j h
      ∙ ap (onto (more_cookies before)) (found_parts name v after j lacks k) in
    (
      get_cookie-append before after (name, v) name
          ∙ ap last_part parts
          ∙ before_semicolon_value v after lacks,
      get_cookie_absent name before j h,
    )
