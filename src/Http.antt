-- ===== src/Http.antt =====
-- What both programs use of the web framework: requests, and routes by path and method.
use Prim.Native.String.{String}
use text.Mathlib.Text.{◌==◌ as ◌===◌}
use tom_notifier.Base.{ℕ, Bool, true, false, List, [], ◌∷◌, Option, none, some, if◌then◌else◌}

pub data Method : Type 0 where
  get post put delete : Method

-- A part of a route's path: a text, or a parameter.
pub data Segment : Type 0 where
  literal : String → Segment
  parameter : Segment

abbrev pub matches : List Segment → List String → Bool
matches [] [] = true
matches (literal t ∷ segments) (part ∷ parts) = if t === part then matches segments parts else false
matches (parameter ∷ segments) (part ∷ parts) = matches segments parts
matches _ _ = false

abbrev same_method : Method → Method → Bool
same_method get get = true
same_method post post = true
same_method put put = true
same_method delete delete = true
same_method _ _ = false

-- A request but for its `Authorization` header.
pub record Http : Type 0 where
  pub method : Method
  pub path : List String
  pub content : List ℕ
  pub content_length : ℕ

module _ {H : Type 0} where
  -- What the framework does with the routes: the first that matches the path, and of it the handler for
  -- the method.
  abbrev pub route_of :
      List (List Segment × List (Method × H)) → List String → Option (List (Method × H))
  route_of [] path = none
  route_of ((segments, methods) ∷ routes) path =
      if matches segments path then some methods else route_of routes path

  abbrev pub handler_of : List (Method × H) → Method → Option H
  handler_of [] method = none
  handler_of ((m, handler) ∷ methods) method =
      if same_method m method then some handler else handler_of methods method
