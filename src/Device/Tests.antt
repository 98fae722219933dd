-- ===== src/Device/Tests.antt =====
-- User agents and what device.go promises of them, for expressions that know these texts.
use middle.Prelude.{[], none, some, ◌≡◌, ◌↔◌, ◌⊎◌, refl, if◌then◌else◌}
use middle.Text.{Text, runes, ◌==◌, trim_space, text_runs}
use middle.Device.{
  Regexps, unknown_device, first_tool, tool_from_ua, is_wechat_mini_program_ua, app_from_ua,
  system_parts, join_parts, parse_device_zh,
}
use middle.Device.Known.{parse_device_zh_iff}

abbrev iphone : Text
iphone = runes "Mozilla/5.0 (iPhone; CPU iPhone OS 17_2 like Mac OS X) miniProgram"

abbrev re : Regexps
re = record {
  ios = λ ua. if ua == iphone then some (runes "iPhone", runes "17", runes "2") else none;
  android = λ ua. some (runes "13", runes " PGJM10");
  windows = λ ua. none;
  mac = λ ua. none;
  edge = λ ua. none;
  chrome = λ ua. none;
  firefox = λ ua. none;
  safari = λ ua. none;
  wechat = λ ua. none;
  qq_browser = λ ua. none;
  uc = λ ua. none;
}

mini_program_on_iphone : parse_device_zh re iphone ≡ runes "iPhone · iOS 17.2 · 微信小程序"
unfolding parse_device_zh tool_from_ua first_tool app_from_ua is_wechat_mini_program_ua system_parts
    join_parts text_runs
mini_program_on_iphone = refl

android_phone : parse_device_zh re (runes "Linux; Android 13; PGJM10") ≡ runes "Android 13 · PGJM10"
unfolding parse_device_zh tool_from_ua first_tool app_from_ua is_wechat_mini_program_ua system_parts
    join_parts text_runs
android_phone = refl

tool : parse_device_zh re (runes "curl/8.1") ≡ runes "程序调用 · curl"
unfolding parse_device_zh tool_from_ua first_tool text_runs
tool = refl

parse_device_zh_iff_instance : (parse_device_zh re (runes "Toaster") ≡ unknown_device) ↔ (
    (trim_space (runes "Toaster") ≡ [])
    ⊎ ((tool_from_ua (trim_space (runes "Toaster")) ≡ [])
        × (system_parts re (trim_space (runes "Toaster")) ≡ [])
        × (app_from_ua re (trim_space (runes "Toaster")) ≡ [])))
parse_device_zh_iff_instance = parse_device_zh_iff re (runes "Toaster")
