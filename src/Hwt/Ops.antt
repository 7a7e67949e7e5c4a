-- ===== src/Hwt/Ops.antt =====
-- The widgets of hwt/src: button.c, grid.c, label.c and panel.c, and hwt.c, which calls them. A
-- widget is a tree; the links from a widget to its parent are in Hwt/Links.
use htools.Prelude.{
  ℕ, zero, suc, ◌+◌, Option, none, some, Bool, true, false, ◌==◌, if◌then◌else◌, ◌&&◌, ◌++◌, List,
  [], ◌∷◌,
}
use htools.Hwt.Base.{
  Floats, Rect, Size, Flow, break_, continue_, Event, expose, pointer_down, pointer_move,
  pointer_up, resize, is_break, maximum,
}

-- `struct Grid` without its children.
pub record Grid (F : Type 0) : Type 0 where
  pub row_num : ℕ
  pub col_num : ℕ
  pub row_min : ℕ → F
  pub col_min : ℕ → F
  pub min : Size F

-- `struct HWTWidget *` with the data of its type; the children of a grid stand row by row. A
-- callback of a button is a number.
mutual
  pub data Widget (F : Type 0) : Type 0 where
    null : Widget F
    button : Rect F → Option ℕ → Widget F → Widget F
    grid : Rect F → Grid F → Widgets F → Widget F
    label : Rect F → List ℕ → Widget F
    panel : Rect F → Widget F → Widget F

  pub data Widgets (F : Type 0) : Type 0 where
    end : Widgets F
    next : Widget F → Widgets F → Widgets F

abbrev pub is_null : {F : Type 0} → Widget F → Bool
is_null null = true
is_null (button r c w) = false
is_null (grid r g ws) = false
is_null (label r t) = false
is_null (panel r w) = false

-- `none` is a widget that is no button.
unfoldable pub button_set_callback : {F : Type 0} → Option ℕ → Widget F → Option (Widget F)
button_set_callback callback null = none
button_set_callback callback (button r _ w) = some (button r callback w)
button_set_callback callback (grid r g ws) = none
button_set_callback callback (label r text) = none
button_set_callback callback (panel r w) = none

abbrev pub put : {F : Type 0} → (ℕ → F) → ℕ → F → ℕ → F
put a i v = λ j. if j == i then v else a j

-- The indices of the two nested loops of grid.c behind a child.
abbrev pub next_row : ℕ → ℕ → ℕ → ℕ
next_row col_num row col = if col + 1 == col_num then row + 1 else row

abbrev pub next_col : ℕ → ℕ → ℕ
next_col col_num col = if col + 1 == col_num then 0 else col + 1

module _ {F : Type 0} (floats : Floats F) where
  -- The sum of the first `n` elements, from the first on.
  unfoldable pub total : (ℕ → F) → ℕ → F
  total a zero = floats.zero_
  total a (suc n) = floats.add (total a n) (a n)

  module _ (junk : ℕ → ℕ → Size F) where
    -- The minimum of a widget, which a label leaves as it finds it; `junk` is what the local `min` of
    -- grid.c holds.
    unfoldable mutual
      pub pull_min : Widget F → Size F → Widget F × Size F
      pull_min null min = (null, record { width = floats.zero_; height = floats.zero_ })
      pull_min (button r callback w) min =
          let (w', min') = pull_min w min in (button r callback w', min')
      pull_min (label r text) min = (label r text, min)
      pull_min (panel r w) min = let (w', min') = pull_min w min in (panel r w', min')
      pull_min (grid r g ws) min =
          let (ws', row_min, col_min) =
            pull_children g.col_num ws 0 0 (λ _. floats.zero_) (λ _. floats.zero_) in
          let min' : Size F = record {
            width = total col_min g.col_num;
            height = total row_min g.row_num;
          } in
          (
            grid r
                (record {
                  row_num = g.row_num;
                  col_num = g.col_num;
                  row_min = row_min;
                  col_min = col_min;
                  min = min';
                })
                ws',
            min',
          )

      pub pull_children : ℕ → Widgets F → ℕ → ℕ → (ℕ → F) → (ℕ → F) → Widgets F × (ℕ → F) × (ℕ → F)
      pull_children col_num end row col row_min col_min = (end, row_min, col_min)
      pull_children col_num (next w ws) row col row_min col_min =
          let (w', min) = pull_min w (junk row col) in
          let row_min' =
            if is_null w
            then row_min
            else put row_min row (maximum floats (row_min row) min.height) in
          let col_min' =
            if is_null w
            then col_min
            else put col_min col (maximum floats (col_min col) min.width) in
          let (ws', row_min'', col_min'') =
            pull_children col_num ws (next_row col_num row col) (next_col col_num col) row_min'
              col_min' in
          (next w' ws', row_min'', col_min'')

  -- The space that a grid gives to each cell beyond its minimum.
  abbrev pub fill : Rect F → Grid F → Size F
  fill r g = record {
    width = floats.div (floats.sub r.width g.min.width) (floats.of_size g.col_num);
    height = floats.div (floats.sub r.height g.min.height) (floats.of_size g.row_num);
  }

  unfoldable mutual
    pub push_rect : Widget F → Rect F → Widget F
    push_rect null r = null
    push_rect (button _ callback w) r = button r callback (push_rect w r)
    push_rect (label _ text) r = label r text
    push_rect (panel _ w) r = panel r (push_rect w r)
    push_rect (grid _ g ws) r = grid r g (push_children r g ws 0 0 r.x r.y)

    pub push_children : Rect F → Grid F → Widgets F → ℕ → ℕ → F → F → Widgets F
    push_children r g end row col x y = end
    push_children r g (next w ws) row col x y =
        let width = floats.add (g.col_min col) (fill r g).width in
        let height = floats.add (g.row_min row) (fill r g).height in
        let last = col + 1 == g.col_num in
        next (push_rect w (record { x = x; y = y; width = width; height = height })) (
          push_children r g ws (next_row g.col_num row col) (next_col g.col_num col)
            (if last then r.x else floats.add x width) (if last then floats.add y height else y))

  -- Whether a button takes an event for a click on its rectangle.
  unfoldable pub do_callback : Event F → Rect F → Bool
  do_callback (pointer_up x y code) r =
      floats.less_eq r.x x
      && floats.less x (floats.add r.x r.width)
      && floats.less_eq r.y y
      && floats.less y (floats.add r.y r.height)
      && code == 0
  do_callback (expose _) r = false
  do_callback (pointer_down _ _ _) r = false
  do_callback (pointer_move _ _ _) r = false
  do_callback (resize _) r = false

  abbrev pub press : Bool → Option ℕ → Flow × List ℕ
  press hit none = (continue_, [])
  press hit (some callback) = if hit then (break_, callback ∷ []) else (continue_, [])

  -- `HWT_EVENT_RESPOND`, and what the code does behind it.
  abbrev pub and_then : Flow × List ℕ → Flow × List ℕ → Flow × List ℕ
  and_then (flow, calls) (flow', calls') =
      if is_break flow then (break_, calls) else (flow', calls ++ calls')

  -- The flow, and the callbacks that were called.
  unfoldable mutual
    pub respond : Event F → Widget F → Flow × List ℕ
    respond e null = (continue_, [])
    respond e (button r callback w) = and_then (respond e w) (press (do_callback e r) callback)
    respond e (label _ _) = (continue_, [])
    respond e (panel _ w) = and_then (respond e w) (continue_, [])
    respond e (grid _ _ ws) = respond_children e ws

    pub respond_children : Event F → Widgets F → Flow × List ℕ
    respond_children e end = (continue_, [])
    respond_children e (next w ws) = and_then (respond e w) (respond_children e ws)

  -- The root behind an event, and the callbacks that were called. `junk` is what the local `min` holds.
  unfoldable pub send_event : (ℕ → ℕ → Size F) → Event F → Widget F → Widget F × List ℕ
  send_event junk (resize size) root =
      let (root', _) = pull_min junk root (junk 0 0) in
      (
        push_rect root' (record {
          x = floats.zero_;
          y = floats.zero_;
          width = size.width;
          height = size.height;
        }),
        [],
      )
  send_event junk (expose r) root = (root, (respond (expose r) root).1)
  send_event junk (pointer_down x y code) root = (root, (respond (pointer_down x y code) root).1)
  send_event junk (pointer_move x y code) root = (root, (respond (pointer_move x y code) root).1)
  send_event junk (pointer_up x y code) root = (root, (respond (pointer_up x y code) root).1)
