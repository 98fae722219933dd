-- ===== src/Device/Known.antt =====
-- When a device is unknown.
use middle.Prelude.{
  Bool, true, false, ◌||◌, not, List, [], ◌∷◌, ◌++◌, Option, none, some, eqb, ◌≡◌, ◌≢◌, ◌⊎◌, ◌↔◌,
  refl, ap, arith, Bool-cases, Empty-cases, inl, inr, if◌then◌else◌,
}
use middle.Text.{Text, runes, is_empty, trim_space, contains}
use middle.Text.Equality.{is_empty_of_ne}
use middle.Device.{
  Regexps, unknown_device, tool_from_ua, is_wechat_mini_program_ua, windows_name, named_app,
  if_matched, app_from_ua, ios_name, android_parts, mac_name, other_parts, windows_parts, ios_parts,
  system_parts, join_parts, joined_device, parse_device_zh,
}

-- The text does not start with the first rune of `unknownDevice`.
abbrev named : Text → Bool
named [] = false
named (c ∷ s) = not (eqb c 0x672a)

named_ne : (s : Text) → named s ≡ true → s ≢ unknown_device
named_ne s h e = ground (arith, h, ap named e)

abbrev StartsNamed : List Text → Type 0
StartsNamed [] = Unit
StartsNamed (p ∷ ps) = named p ≡ true

ios_name-named : (dev : Text) → named (ios_name dev) ≡ true
ios_name-named dev = ground arith

windows_name-named : (nt : Text) → named (windows_name nt) ≡ true
unfolding windows_name
windows_name-named nt = ground arith

mac_name-named : (o : Option (Text × Text)) → named (mac_name o) ≡ true
mac_name-named none = refl
mac_name-named (some (major, minor)) = ground arith

other_parts-StartsNamed : (o : Option (Text × Text)) (ua : Text) → StartsNamed (other_parts o ua)
other_parts-StartsNamed (some v) ua = mac_name-named (some v)
other_parts-StartsNamed none ua = ground arith

windows_parts-StartsNamed :
    (o : Option Text) (later : List Text) → StartsNamed later → StartsNamed (windows_parts o later)
windows_parts-StartsNamed (some nt) later h = windows_name-named nt
windows_parts-StartsNamed none later h = h

android_parts-StartsNamed : (o : Option (Text × Text)) → StartsNamed (android_parts o)
android_parts-StartsNamed none = refl
android_parts-StartsNamed (some (ver, model)) = ground arith

ios_parts-StartsNamed :
    (o : Option (Text × Text × Text)) (later : List Text)
    → StartsNamed later
    → StartsNamed (ios_parts o later)
ios_parts-StartsNamed (some (dev, major, minor)) later h = ios_name-named dev
ios_parts-StartsNamed none later h = h

system_parts-StartsNamed : (re : Regexps) (ua : Text) → StartsNamed (system_parts re ua)
unfolding system_parts
system_parts-StartsNamed re ua =
    ios_parts-StartsNamed (re.ios ua) _ (elim (Bool-cases (contains ua (runes "Android"))) [
      | inl e ↦ rw e (android_parts-StartsNamed (re.android ua))
      | inr e ↦
          rw e
            (windows_parts-StartsNamed (re.windows ua) _ (other_parts-StartsNamed (re.mac ua) ua))
    ])

abbrev IsEmptyOrNamed : Text → Type 0
IsEmptyOrNamed s = (s ≡ []) ⊎ (named s ≡ true)

named_app-IsEmptyOrNamed :
    (name : Text) (o : Option Text) (later : Text)
    → named name ≡ true
    → IsEmptyOrNamed later
    → IsEmptyOrNamed (named_app name o later)
named_app-IsEmptyOrNamed name none later h h' = h'
named_app-IsEmptyOrNamed [] (some v) later h h' = absurd (ground arith)
named_app-IsEmptyOrNamed (c ∷ name) (some v) later h h' = inr h

if_matched-IsEmptyOrNamed :
    (o : Option Text) (name later : Text)
    → named name ≡ true
    → IsEmptyOrNamed later
    → IsEmptyOrNamed (if_matched o name later)
if_matched-IsEmptyOrNamed none name later h h' = h'
if_matched-IsEmptyOrNamed (some v) name later h h' = inr h

if-IsEmptyOrNamed :
    (b : Bool) (s t : Text)
    → named s ≡ true
    → IsEmptyOrNamed t
    → IsEmptyOrNamed (if b then s else t)
if-IsEmptyOrNamed true s t h h' = inr h
if-IsEmptyOrNamed false s t h h' = h'

chrome_app-IsEmptyOrNamed :
    (b : Bool) (o : Option Text) (later : Text)
    → IsEmptyOrNamed later
    → IsEmptyOrNamed (named_app (if b then runes "应用内浏览器 " else runes "Chrome 浏览器 ") o later)
chrome_app-IsEmptyOrNamed true o later h = named_app-IsEmptyOrNamed (runes "应用内浏览器 ") o later refl h
chrome_app-IsEmptyOrNamed false o later h =
    named_app-IsEmptyOrNamed (runes "Chrome 浏览器 ") o later refl h

app_from_ua-IsEmptyOrNamed : (re : Regexps) (ua : Text) → IsEmptyOrNamed (app_from_ua re ua)
unfolding app_from_ua
app_from_ua-IsEmptyOrNamed re ua = if-IsEmptyOrNamed (is_wechat_mini_program_ua ua) _ _ refl (
    if-IsEmptyOrNamed (contains ua (runes "Electron/")) _ _ refl (
      if_matched-IsEmptyOrNamed (re.wechat ua) _ _ refl (
        named_app-IsEmptyOrNamed (runes "QQ 浏览器 ") (re.qq_browser ua) _ refl (
          named_app-IsEmptyOrNamed (runes "UC 浏览器 ") (re.uc ua) _ refl (
            named_app-IsEmptyOrNamed (runes "Edge 浏览器 ") (re.edge ua) _ refl (
              if-IsEmptyOrNamed (contains ua (runes "OPR/") || contains ua (runes "Opera")) _ _ refl
                (named_app-IsEmptyOrNamed (runes "火狐浏览器 ") (re.firefox ua) _ refl (
                  chrome_app-IsEmptyOrNamed (contains ua (runes "; wv)")) (re.chrome ua) _ (
                    named_app-IsEmptyOrNamed (runes "Safari 浏览器 ") (re.safari ua) [] refl
                      (inl refl))))))))))

join_parts-named : (p : Text) (ps : List Text) → named p ≡ true → named (join_parts (p ∷ ps)) ≡ true
unfolding join_parts
join_parts-named (c ∷ p) [] h = h
join_parts-named (c ∷ p) (q ∷ ps) h = h
join_parts-named [] ps h = absurd (ground arith)

-- Parts of which the first has a name are joined to a known device.
joined_device_ne :
    (l : List Text) (app : Text)
    → StartsNamed l
    → IsEmptyOrNamed app
    → joined_device (l ++ (if is_empty app then [] else app ∷ [])) ≡ unknown_device
    → (l ≡ []) × (app ≡ [])
joined_device_ne (p ∷ ps) app h h' e = absurd (named_ne _ (join_parts-named p _ h) e)
joined_device_ne [] [] h h' e = (refl, refl)
joined_device_ne [] (c ∷ app) h (inl blank) e = absurd (ground (arith, blank))
joined_device_ne [] (c ∷ app) h (inr n) e = absurd (named_ne _ (join_parts-named (c ∷ app) [] n) e)

-- A device is unknown exactly if the user agent is blank, or names no tool, no system and no
-- application.
pub parse_device_zh_iff :
    (re : Regexps) (raw : Text)
    → (parse_device_zh re raw ≡ unknown_device) ↔ (
        (trim_space raw ≡ [])
        ⊎ ((tool_from_ua (trim_space raw) ≡ [])
            × (system_parts re (trim_space raw) ≡ [])
            × (app_from_ua re (trim_space raw) ≡ [])))
unfolding parse_device_zh
parse_device_zh_iff re raw = elim (Empty-cases (trim_space raw)) [
  | inl e ↦ rw (e) ((λ h. inl refl), (λ h. refl))
  | inr solid ↦ elim (Empty-cases (tool_from_ua (trim_space raw))) [
    | inl no_tool ↦
        rw (is_empty_of_ne _ solid, no_tool)
          (
            (λ h.
                let (sys, app) =
                  joined_device_ne (system_parts re (trim_space raw))
                    (app_from_ua re (trim_space raw)) (system_parts-StartsNamed re (trim_space raw))
                    (app_from_ua-IsEmptyOrNamed re (trim_space raw)) h in
                inr (refl, sys, app)),
            (λ h. elim h [ inl e ↦ absurd (solid e) | inr (_, sys, app) ↦ rw (sys, app) refl ]),
          )
    | inr tool ↦
        rw (is_empty_of_ne _ solid, is_empty_of_ne _ tool)
          (
            (λ h. absurd (named_ne _ refl h)),
            (λ h. elim h [ inl e ↦ absurd (solid e) | inr (e, _, _) ↦ absurd (tool e) ]),
          )
  ]
]
