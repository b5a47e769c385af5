-- ===== src/Domain/Session/Blocks.antt =====
-- `merge_block` of apps/desktop/src/domain/session.rs: streamed text coalesces into one block.
use oxyris.Prelude.{
  ℕ, ◌≡◌, refl, sym, Bool, true, false, ◌&&◌, List, [], ◌∷◌, ◌++◌, append_assoc, append-nil, map,
  map-append, arith,
}
use oxyris.Provider.{AssistantBlock, text, thinking, tool_use, tool_result}

merge_last : AssistantBlock → AssistantBlock → List AssistantBlock
merge_last (text prev) (text next) = text (prev ++ next) ∷ []
merge_last prev incoming = prev ∷ incoming ∷ []

unfoldable pub merge_block : List AssistantBlock → AssistantBlock → List AssistantBlock
unfolding merge_last
merge_block [] incoming = incoming ∷ []
merge_block (b ∷ []) incoming = merge_last b incoming
merge_block (b ∷ b' ∷ bs) incoming = b ∷ merge_block (b' ∷ bs) incoming

-- What a list of blocks shows, piece by piece: the characters of its text blocks, and the others.
pub data Piece : Type 0 where
  character : ℕ → Piece
  block : AssistantBlock → Piece

abbrev pub pieces_of : AssistantBlock → List Piece
pieces_of (text s) = map character s
pieces_of b = block b ∷ []

abbrev pub pieces : List AssistantBlock → List Piece
pieces [] = []
pieces (b ∷ bs) = pieces_of b ++ pieces bs

pieces-merge_last :
    (prev incoming : AssistantBlock)
    → pieces (merge_last prev incoming) ≡ pieces_of prev ++ pieces_of incoming
unfolding merge_last
pieces-merge_last (text prev) (text next) = rw append-nil (map-append _ prev next)
pieces-merge_last (text prev) (thinking next) = refl
pieces-merge_last (text prev) (tool_use id name input) = refl
pieces-merge_last (text prev) (tool_result id output is_error) = refl
pieces-merge_last (thinking prev) incoming = rw append-nil
pieces-merge_last (tool_use id name input) incoming = rw append-nil
pieces-merge_last (tool_result id output is_error) incoming = rw append-nil

-- Merging a block adds its pieces at the end and changes none of those before it.
pub pieces-merge_block :
    (bs : List AssistantBlock) (incoming : AssistantBlock)
    → pieces (merge_block bs incoming) ≡ pieces bs ++ pieces_of incoming
unfolding merge_block
pieces-merge_block [] incoming = append-nil _
pieces-merge_block (b ∷ []) incoming = rw append-nil (pieces-merge_last b incoming)
pieces-merge_block (b ∷ b' ∷ bs) incoming =
    rw (pieces-merge_block (b' ∷ bs) incoming) (sym (append_assoc (pieces_of b) _ _))

abbrev pub is_text : AssistantBlock → Bool
is_text (text s) = true
is_text _ = false

-- No two text blocks stand side by side.
abbrev pub IsCoalesced : List AssistantBlock → Type 0
IsCoalesced [] = Unit
IsCoalesced (b ∷ []) = Unit
IsCoalesced (b ∷ b' ∷ bs) = (is_text b && is_text b' ≡ false) × IsCoalesced (b' ∷ bs)

-- Merging a block never puts two text blocks side by side.
pub merge_block-IsCoalesced :
    (bs : List AssistantBlock) (incoming : AssistantBlock)
    → IsCoalesced bs
    → IsCoalesced (merge_block bs incoming)
unfolding merge_block
merge_block-IsCoalesced [] incoming c = tt
merge_block-IsCoalesced (b ∷ []) incoming c = ground arith
merge_block-IsCoalesced (b ∷ b' ∷ []) incoming c = ground arith
merge_block-IsCoalesced (b ∷ b' ∷ b'' ∷ bs) incoming c =
    (c.0, merge_block-IsCoalesced (b' ∷ b'' ∷ bs) incoming c.1)
