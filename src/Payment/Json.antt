-- ===== src/Payment/Json.antt =====
-- webhook.go: `writeSorted`. A decoded JSON value is what `json.Unmarshal` stores in an `any`; the
-- fields of a map stand in the order in which the map is ranged over.
use Prim.Native.Nat.{compare, Ordering}
use ol1n_super_app.Base.{Bool, true, false, List, [], ◌∷◌, ◌++◌, Bytes, codes}

mutual
  pub data Value (N : Type 0) : Type 0 where
    null : Value N
    bool : Bool → Value N
    number : N → Value N
    string : Bytes → Value N
    array : Items N → Value N
    object : Fields N → Value N

  pub data Items (N : Type 0) : Type 0 where
    nil : Items N
    cons : Value N → Items N → Items N

  pub data Fields (N : Type 0) : Type 0 where
    end : Fields N
    field : Bytes → Value N → Fields N → Fields N

-- `<` on strings, as `sort.Strings` orders them: by bytes, a prefix first.
unfoldable pub precedes : Bytes → Bytes → Bool
precedes [] [] = false
precedes [] (d ∷ ds) = true
precedes (c ∷ cs) [] = false
precedes (c ∷ cs) (d ∷ ds) =
    let rest = precedes cs ds in
    elim (compare c d) [ Ordering.lt ↦ true | Ordering.eq ↦ rest | Ordering.gt ↦ false ]

-- A key and the text of its value.
abbrev pub Entry : Type 0
Entry = Bytes × Bytes

unfoldable pub insert_entry : Entry → List Entry → List Entry
insert_entry e [] = e ∷ []
insert_entry (k, v) ((j, w) ∷ es) =
    let later = (j, w) ∷ insert_entry (k, v) es in
    elim (precedes j k) [ true ↦ later | false ↦ (k, v) ∷ (j, w) ∷ es ]

unfoldable pub sort_entries : List Entry → List Entry
unfolding insert_entry
sort_entries [] = []
sort_entries (e ∷ es) = insert_entry e (sort_entries es)

-- The texts with a comma between two of them.
unfoldable pub join : List Bytes → Bytes
join [] = []
join (t ∷ []) = t
join (t ∷ u ∷ ts) = t ++ (b',' ∷ join (u ∷ ts))

-- `marshal_string` is `json.Marshal` of a string, `format_float` is
-- `strconv.FormatFloat(t, 'f', -1, 64)`.
module _ {N : Type 0} (format_float : N → Bytes) (marshal_string : Bytes → Bytes) where
  unfoldable pub write_entries : List Entry → List Bytes
  write_entries [] = []
  write_entries ((k, v) ∷ es) = (marshal_string k ++ (b':' ∷ v)) ∷ write_entries es

  -- Each value is written to a text of its own, and then the texts are put in the order of the keys.
  unfoldable mutual
    unfolding write_entries sort_entries join

    pub write_sorted : Value N → Bytes
    write_sorted null = codes "null"
    write_sorted (bool true) = codes "true"
    write_sorted (bool false) = codes "false"
    write_sorted (number n) = format_float n
    write_sorted (string s) = marshal_string s
    write_sorted (array xs) = b'[' ∷ (join (write_items xs) ++ (b']' ∷ []))
    write_sorted (object fs) =
        b'{' ∷ (join (write_entries (sort_entries (write_fields fs))) ++ (b'}' ∷ []))

    pub write_items : Items N → List Bytes
    write_items nil = []
    write_items (cons x xs) = write_sorted x ∷ write_items xs

    pub write_fields : Fields N → List Entry
    write_fields end = []
    write_fields (field k v fs) = (k, write_sorted v) ∷ write_fields fs
