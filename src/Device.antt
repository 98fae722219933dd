-- ===== src/Device.antt =====
-- device.go: a device in words from a User-Agent. What the regular expressions capture is the
-- parameter Regexps: `none` where an expression does not match.
pub mod Known
mod Tests
use middle.Prelude.{
  Bool, true, false, ◌&&◌, ◌||◌, not, List, [], ◌∷◌, ◌++◌, Option, none, some, if◌then◌else◌,
}
use middle.Text.{
  Text, runes, is_empty, ◌==◌, trim_space, to_lower, equal_fold, has_prefix, contains,
}

-- The first three groups of `reIOS`; the groups of `reAndroid` (the second is without what `reBuild`
-- matches) and of `reMac`; else the first group.
pub record Regexps : Type 0 where
  pub ios : Text → Option (Text × Text × Text)
  pub android : Text → Option (Text × Text)
  pub windows : Text → Option Text
  pub mac : Text → Option (Text × Text)
  pub edge : Text → Option Text
  pub chrome : Text → Option Text
  pub firefox : Text → Option Text
  pub safari : Text → Option Text
  pub wechat : Text → Option Text
  pub qq_browser : Text → Option Text
  pub uc : Text → Option Text

abbrev pub unknown_device : Text
unknown_device = runes "未知设备"

-- A key of a user agent and the name of its tool.
pub record Tool : Type 0 where
  pub key : Text
  pub name : Text

abbrev pub tools : List Tool
tools =
    record { key = runes "curl/"; name = runes "curl" }
    ∷ record { key = runes "postmanruntime"; name = runes "Postman" }
    ∷ record { key = runes "go-http-client"; name = runes "Go" }
    ∷ record { key = runes "python-requests"; name = runes "Python" }
    ∷ record { key = runes "okhttp/"; name = runes "okhttp" }
    ∷ record { key = runes "apache-httpclient"; name = runes "Java" }
    ∷ record { key = runes "axios/"; name = runes "axios" }
    ∷ record { key = runes "node-fetch"; name = runes "Node" }
    ∷ []

-- The loop of `toolFromUA`.
unfoldable pub first_tool : Text → List Tool → Text
first_tool l [] = []
first_tool l (t ∷ ts) =
    if contains l t.key && not (contains l (runes "mozilla/")) then t.name else first_tool l ts

unfoldable pub tool_from_ua : Text → Text
tool_from_ua ua = first_tool (to_lower ua) tools

unfoldable pub is_wechat_mini_program_ua : Text → Bool
is_wechat_mini_program_ua ua = contains (to_lower ua) (runes "miniprogram")

unfoldable pub windows_name : Text → Text
windows_name nt =
    if nt == runes "10.0"
    then runes "Windows 10/11"
    else if nt == runes "6.3"
    then runes "Windows 8.1"
    else if nt == runes "6.2"
    then runes "Windows 8"
    else if nt == runes "6.1"
    then runes "Windows 7"
    else runes "Windows"

-- The branches of `appFromUA` with an expression: the name before what it captures, or `later`.
abbrev pub named_app : Text → Option Text → Text → Text
named_app name (some v) later = name ++ v
named_app name none later = later

abbrev pub if_matched : Option Text → Text → Text → Text
if_matched (some v) name later = name
if_matched none name later = later

unfoldable pub app_from_ua : Regexps → Text → Text
app_from_ua re ua =
    let webview = contains ua (runes "; wv)") in
    let chrome = if webview then runes "应用内浏览器 " else runes "Chrome 浏览器 " in
    let safari = named_app (runes "Safari 浏览器 ") (re.safari ua) [] in
    let google = named_app chrome (re.chrome ua) safari in
    let firefox = named_app (runes "火狐浏览器 ") (re.firefox ua) google in
    let opera =
      if contains ua (runes "OPR/") || contains ua (runes "Opera")
      then runes "Opera 浏览器"
      else firefox in
    let edge = named_app (runes "Edge 浏览器 ") (re.edge ua) opera in
    let uc = named_app (runes "UC 浏览器 ") (re.uc ua) edge in
    let qq = named_app (runes "QQ 浏览器 ") (re.qq_browser ua) uc in
    let wechat = if_matched (re.wechat ua) (runes "微信内置浏览器") qq in
    if is_wechat_mini_program_ua ua
    then runes "微信小程序"
    else if contains ua (runes "Electron/")
    then runes "桌面客户端"
    else wechat

abbrev pub ios_name : Text → Text
ios_name dev =
    if equal_fold dev (runes "iphone")
    then runes "iPhone"
    else if equal_fold dev (runes "ipad")
    then runes "iPad"
    else runes "iPod"

-- Models that are no model.
abbrev pub no_model : Text → Bool
no_model model =
    equal_fold model (runes "wv")
    || equal_fold model (runes "U")
    || has_prefix (to_lower model) (runes "zh-")
    || has_prefix (to_lower model) (runes "en-")

abbrev pub with_model : Text → List Text
with_model model = if no_model model || is_empty model then [] else model ∷ []

abbrev pub android_parts : Option (Text × Text) → List Text
android_parts none = runes "Android" ∷ []
android_parts (some (ver, model)) =
    (if is_empty ver then runes "Android" else runes "Android " ++ ver)
    ∷ with_model (trim_space model)

abbrev pub mac_name : Option (Text × Text) → Text
mac_name none = runes "macOS"
mac_name (some (major, minor)) =
    if not (major == runes "10") || not (minor == runes "15")
    then runes "macOS" ++ (runes " " ++ (major ++ (runes "." ++ minor)))
    else runes "macOS"

-- The branches behind iOS, Android and Windows.
abbrev pub other_parts : Option (Text × Text) → Text → List Text
other_parts (some v) ua = mac_name (some v) ∷ []
other_parts none ua =
    if contains ua (runes "Macintosh")
    then mac_name none ∷ []
    else if contains ua (runes "CrOS")
    then runes "ChromeOS" ∷ []
    else if contains ua (runes "Linux") || contains ua (runes "X11")
    then runes "Linux" ∷ []
    else []

abbrev pub windows_parts : Option Text → List Text → List Text
windows_parts (some nt) later = windows_name nt ∷ []
windows_parts none later = later

abbrev pub ios_parts : Option (Text × Text × Text) → List Text → List Text
ios_parts (some (dev, major, minor)) later =
    ios_name dev ∷ (runes "iOS " ++ (major ++ (runes "." ++ minor))) ∷ []
ios_parts none later = later

-- The `switch` of `ParseDeviceZH`.
unfoldable pub system_parts : Regexps → Text → List Text
system_parts re ua = ios_parts (re.ios ua) (
    if contains ua (runes "Android")
    then android_parts (re.android ua)
    else windows_parts (re.windows ua) (other_parts (re.mac ua) ua))

-- `strings.Join(parts, " · ")`
unfoldable pub join_parts : List Text → Text
join_parts [] = []
join_parts (p ∷ ps) =
    let rest = join_parts ps in if is_empty ps then p else p ++ (runes " · " ++ rest)

abbrev pub joined_device : List Text → Text
joined_device [] = unknown_device
joined_device (p ∷ ps) = join_parts (p ∷ ps)

unfoldable pub parse_device_zh : Regexps → Text → Text
parse_device_zh re raw =
    let ua = trim_space raw in
    if is_empty ua
    then unknown_device
    else if not (is_empty (tool_from_ua ua))
    then runes "程序调用 · " ++ tool_from_ua ua
    else joined_device (
        system_parts re ua ++ (if is_empty (app_from_ua re ua) then [] else app_from_ua re ua ∷ []))

unfoldable pub looks_like_raw_ua : Text → Bool
looks_like_raw_ua s =
    contains s (runes "Mozilla/")
    || contains s (runes "AppleWebKit")
    || contains s (runes "Dalvik/")
