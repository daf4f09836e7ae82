-- ===== src/Agent/ToolDedup/Wrap.antt =====
-- internal/agent/tooldedup.go: wrapping the tools of a run. A tool is what its Info answers and, if
-- it is invokable, its behaviour.
use open_nipper.Prelude.{
  ◌≡◌, false, Option, none, some, List, [], ◌∷◌, map, Text, is_empty, if◌then◌else◌, All,
  Bool-cases, inl, inr,
}

pub record ToolInfo : Type 0 where
  pub name : Text
  pub desc : Text

pub record InvokableTool (E : Type 0) : Type 0 where
  pub info : Option ToolInfo
  pub inner : Text → E

pub data BaseTool (E : Type 0) : Type 0 where
  invokable : InvokableTool E → BaseTool E
  other : Option ToolInfo → BaseTool E

-- A tool that goes through the shared tracker, and one that is passed through.
pub data DedupTool (E : Type 0) : Type 0 where
  tracked : InvokableTool E → DedupTool E
  passed : Option ToolInfo → DedupTool E

wrap_tool : {E : Type 0} → BaseTool E → DedupTool E
wrap_tool (invokable t) = tracked t
wrap_tool (other info) = passed info

pub wrap_tools_with_dedup : {E : Type 0} → List (BaseTool E) → List (DedupTool E)
wrap_tools_with_dedup = map wrap_tool

-- Info of a descSanitizedTool.
unfoldable pub described_info : Option ToolInfo → Option ToolInfo
described_info none = none
described_info (some info) =
    some (if is_empty info.desc then record info { desc = info.name } else info)

abbrev sanitize_tool : {E : Type 0} → BaseTool E → BaseTool E
sanitize_tool (invokable t) = invokable (record t { info = described_info t.info })
sanitize_tool (other info) = other info

unfoldable pub sanitize_tool_descriptions : {E : Type 0} → List (BaseTool E) → List (BaseTool E)
unfolding described_info
sanitize_tool_descriptions [] = []
sanitize_tool_descriptions (t ∷ ts) = sanitize_tool t ∷ sanitize_tool_descriptions ts

abbrev InfoIsNamed : Option ToolInfo → Type 0
InfoIsNamed none = Unit
InfoIsNamed (some info) = is_empty info.name ≡ false

abbrev pub IsNamed : {E : Type 0} → BaseTool E → Type 0
IsNamed (invokable t) = InfoIsNamed t.info
IsNamed (other info) = Unit

abbrev InfoIsDescribed : Option ToolInfo → Type 0
InfoIsDescribed none = Unit
InfoIsDescribed (some info) = is_empty info.desc ≡ false

-- What an endpoint is told of an invokable tool, if it is told anything, has a description.
abbrev pub IsDescribed : {E : Type 0} → BaseTool E → Type 0
IsDescribed (invokable t) = InfoIsDescribed t.info
IsDescribed (other info) = Unit

info-IsDescribed : (o : Option ToolInfo) → InfoIsNamed o → InfoIsDescribed (described_info o)
unfolding described_info
info-IsDescribed none named = tt
info-IsDescribed (some info) named = elim (Bool-cases (is_empty info.desc)) [
  | inl e ↦ rw e named
  | inr e ↦ rw e e
]

-- If every invokable tool has a name where its Info answers, then after the sanitizing every
-- invokable tool has a description where its Info answers.
pub sanitize-IsDescribed :
    {E : Type 0} (ts : List (BaseTool E))
    → All IsNamed ts
    → All IsDescribed (sanitize_tool_descriptions ts)
unfolding sanitize_tool_descriptions
sanitize-IsDescribed [] named = tt
sanitize-IsDescribed (invokable t ∷ ts) named =
    (info-IsDescribed t.info named.0, sanitize-IsDescribed ts named.1)
sanitize-IsDescribed (other info ∷ ts) named = (tt, sanitize-IsDescribed ts named.1)
