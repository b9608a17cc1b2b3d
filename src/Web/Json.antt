-- ===== src/Web/Json.antt =====
-- Webhook payloads, as `request.json()` returns them, and the `get`, the truth test and the print
-- that web/ applies to them. The numbers that it reads (of issues and pull requests) are natural.
use gita.Base.{
  ℕ, String, ◌≡◌, refl, Bool, true, false, not, ◌==◌, eqb, if◌then◌else◌, attribute_error, Result,
  ok, err, ◌>>=◌,
}
use gita.Base.Text.{decimal}

mutual
  pub data Json : Type 0 where
    null : Json
    flag : Bool → Json
    num : ℕ → Json
    str : String → Json
    arr : Items → Json
    obj : Fields → Json

  pub data Items : Type 0 where
    nil : Items
    item : Json → Items → Items

  pub data Fields : Type 0 where
    end : Fields
    field : String → Json → Fields → Fields

pub field_or : String → Json → Fields → Json
field_or k default end = default
field_or k default (field j v rest) = if j == k then v else field_or k default rest

-- `v.get(k, default)`: only a `dict` has the method.
unfoldable pub get_or : String → Json → Json → Result Json
unfolding field_or
get_or k default (obj fields) = ok (field_or k default fields)
get_or k default _ = err attribute_error

-- `v.get(k)`
abbrev pub get : String → Json → Result Json
get k v = get_or k null v

-- `bool(v)`
abbrev pub truthy : Json → Bool
truthy null = false
truthy (flag b) = b
truthy (num n) = not (eqb n 0)
truthy (str s) = not (s == "")
truthy (arr nil) = false
truthy (arr (item v rest)) = true
truthy (obj end) = false
truthy (obj (field k v rest)) = true

-- `v.get(k) or {}`
abbrev pub get_dict : String → Json → Result Json
get_dict k v = do found ← get k v; ok (if truthy found then found else obj end)

-- `v == "..."`
abbrev pub is_text : String → Json → Bool
is_text t (str s) = s == t
is_text t _ = false

-- `str(v)`; Python's print of a list or a `dict` is the argument `repr`.
unfoldable pub to_str : (Json → String) → Json → String
to_str repr null = "None"
to_str repr (flag true) = "True"
to_str repr (flag false) = "False"
to_str repr (num n) = decimal n
to_str repr (str s) = s
to_str repr v = repr v

json_tests :
    (get "a" (obj (field "a" (num 1) end)) ≡ ok (num 1))
    × (get_dict "b" (obj end) ≡ ok (obj end))
    × (get "a" null ≡ err attribute_error)
unfolding get_or
json_tests = (refl, refl, refl)
