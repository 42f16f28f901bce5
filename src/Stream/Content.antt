-- ===== src/Stream/Content.antt =====
-- The typed content that signature deltas cover, in internal/plugin/streamverify.go, and one
-- occurrence of such a delta with the scope that the scan computes for it.
use Prim.Native.String.{String}
use package.text.Mathlib.Text.{◌==◌ as str_eq}
use torana_edge.Prelude.{ℕ, Bool, true, false, ◌&&◌, Option, List}
use torana_edge.Stream.ToolScopes.{ToolCallScope, same_flag}

pub record TypedContent : Type 0 where
  pub text : String
  pub thinking : String
  pub text_seen : Bool
  pub thinking_seen : Bool

abbrev pub no_content : TypedContent
no_content = record { text = ""; thinking = ""; text_seen = false; thinking_seen = false }

unfoldable pub equals : TypedContent → TypedContent → Bool
equals t o =
    str_eq t.text o.text
    && str_eq t.thinking o.thinking
    && same_flag t.text_seen o.text_seen
    && same_flag t.thinking_seen o.thinking_seen

unfoldable pub content_is_empty : TypedContent → Bool
content_is_empty t = str_eq t.text "" && str_eq t.thinking ""

unfoldable pub content_same_kind : TypedContent → TypedContent → Bool
content_same_kind t o =
    same_flag t.text_seen o.text_seen && same_flag t.thinking_seen o.thinking_seen

pub data SigBindingKind : Type 0 where
  current trailing unbound : SigBindingKind

abbrev pub same_binding_kind : SigBindingKind → SigBindingKind → Bool
same_binding_kind current current = true
same_binding_kind trailing trailing = true
same_binding_kind unbound unbound = true
same_binding_kind _ _ = false

-- The ordinal of the covered span is `none` where the source has -1.
pub record SigBinding : Type 0 where
  pub kind : SigBindingKind
  pub signature : String
  pub content : TypedContent
  pub span : Option ℕ

pub record StreamSignatureView : Type 0 where
  pub tool_scopes : List ToolCallScope
  pub bindings : List SigBinding
  pub spans : List TypedContent
  pub closed : TypedContent
  pub saw_content : Bool
