-- ===== src/Retrieval/Stop.antt =====
-- `stopReminderText` of packages/core/src/claudeHooks.ts.
use caveat.Common.{
  ℕ, suc, ◌+◌, Bool, true, false, ◌||◌, List, [], ◌∷◌, ◌++◌, map, Text, codes, if◌then◌else◌,
  nat_beq, ltb, length, take, join, split,
}
use caveat.Transcript.{SessionSignals}
use caveat.Retrieval.Reminder.{
  SearchResult, ActionSurface, claude_mcp, native_cli, surface_of, reminder_hit_line,
}

abbrev last_part : Text → List Text → Text
last_part p [] = p
last_part p (t ∷ []) = t
last_part p (t ∷ u ∷ ts) = last_part p (u ∷ ts)

-- `shortPath`
unfoldable pub short_path : Text → Text
short_path p = last_part p (split (λ c. nat_beq c 92 || nat_beq c 47) p)

-- A line that stands for a count above zero.
abbrev count_line : ℕ → Text → List Text
count_line n line = if ltb 0 n then line ∷ [] else []

abbrev mcp_name : Bool → Text
mcp_name managed = if managed then [] else codes "mcp__caveat__"

module _ (decimal : ℕ → Text) where
  abbrev edit_text : Text × ℕ → Text
  edit_text (path, count) = short_path path ++ (codes " × " ++ decimal count)

  unfoldable pub edit_lines : List (Text × ℕ) → List Text
  unfolding short_path
  edit_lines [] = []
  edit_lines (e ∷ es) =
      (codes "- 同一ファイル複数編集: " ++ join (codes ", ") (map edit_text (take 3 (e ∷ es)))) ∷ []

  abbrev sample_note : List Text → Text
  sample_note [] = []
  sample_note ([] ∷ queries) = []
  sample_note ((c ∷ cs) ∷ queries) = codes " (例: \"" ++ (take 60 (c ∷ cs) ++ codes "\")")

  -- The lines of the signals.
  unfoldable pub signal_lines : SessionSignals → List Text
  unfolding edit_lines
  signal_lines s =
      count_line s.tool_failure_count
        (codes "- tool failure: " ++ (decimal s.tool_failure_count ++ codes " 件"))
      ++ (edit_lines s.file_edit_counts
          ++ (count_line s.web_search_count (
                codes "- WebSearch: "
                ++ (decimal s.web_search_count ++ (codes " 回" ++ sample_note s.search_queries)))
              ++ (count_line s.web_fetch_count
                    (codes "- WebFetch: " ++ (decimal s.web_fetch_count ++ codes " 回"))
                  ++ (count_line s.bash_retry_count
                        (codes "- 同一 Bash コマンドの再実行: " ++ (decimal s.bash_retry_count ++ codes " 種"))
                      ++ count_line s.duration_minutes
                          (codes "- 経過時間: " ++ (decimal s.duration_minutes ++ codes " 分"))))))

  abbrev hint_line : SessionSignals → Text
  hint_line s =
      codes "- 分類ヒント: "
      ++ (if ltb 0 (s.web_search_count + s.web_fetch_count)
          then codes "外部仕様調査あり → public 寄り"
          else codes "外部調査なし → private 寄り")

  abbrev related_heading : Bool → ActionSurface → ℕ → Text
  related_heading managed native_cli n =
      codes "セッション内容と共起する既存罠 "
      ++ (decimal n ++ codes " 件（詳細は `caveat show <id> --source <source>` で確認）:")
  related_heading managed claude_mcp n =
      codes "セッション内容と共起する既存罠 "
      ++ (decimal n
          ++ (codes " 件（関連があれば "
              ++ (mcp_name managed ++ codes "caveat_update で last_verified を更新 or 追記）:")))

  abbrev related_advice : Bool → ActionSurface → Text
  related_advice managed native_cli =
      codes
        "関連する own エントリは `caveat show <id> --source own` が示す path の Markdownで last_verified や本文を更新し、`caveat index` を実行してください。community エントリは購読物なので直接編集しません。上記と異なる新規の罠は Caveat の own knowledge repo へ Markdown で記録し、`caveat index` を実行してください。outcome: impossible（現状の制約では不可能と判定した結論）も記録対象。"
  related_advice managed claude_mcp =
      codes "上記と異なる新規の罠を踏んでいたら "
      ++ (mcp_name managed
          ++ codes "caveat_record で登録してください。outcome: impossible（現状の制約では不可能と判定した結論）も記録対象。")

  abbrev unrelated_advice : Bool → ActionSurface → Text
  unrelated_advice managed native_cli =
      codes
        "既存罠に該当なし。外部仕様の罠に苦戦していたなら Caveat の own knowledge repo へ Markdown で記録し、`caveat index` を実行してください。outcome: impossible も記録対象。"
  unrelated_advice managed claude_mcp =
      codes "既存罠に該当なし。外部仕様の罠に苦戦していたなら "
      ++ (mcp_name managed ++ codes "caveat_record で登録してください。outcome: impossible も記録対象。")

  abbrev visibility_advice : ActionSurface → Text
  visibility_advice native_cli =
      codes "記録時は visibility を二項基準で選ぶ（public = 第三者再現可能 / private = repo 固有）。迷ったら private。"
  visibility_advice claude_mcp =
      codes "記録時は tool 説明の二項基準で visibility を選ぶ（public = 第三者再現可能 / private = repo 固有）。迷ったら private。"

  unfoldable pub numbered : ℕ → List SearchResult → List Text
  numbered index [] = []
  numbered index (hit ∷ hits) = reminder_hit_line decimal hit index ∷ numbered (suc index) hits

  unfoldable pub related_lines : Bool → ActionSurface → List SearchResult → List Text
  unfolding numbered
  related_lines managed surface [] = unrelated_advice managed surface ∷ []
  related_lines managed surface (hit ∷ hits) =
      related_heading managed surface (length (hit ∷ hits))
      ∷ (numbered 0 (hit ∷ hits) ++ ([] ∷ related_advice managed surface ∷ []))

  abbrev managed_lines : Bool → List Text
  managed_lines true =
      codes
        "Use the Caveat MCP tools only: caveat_get with id + source for details; caveat_update or caveat_record updates the index too. If the tool is unavailable, stop; do not use a PATH command or another context."
      ∷ []
  managed_lines false = []

  abbrev stop_heading : Text
  stop_heading = codes "[caveat] このセッションで外部仕様の罠に当たった可能性を示すシグナル:"

  -- `stopReminderText`
  unfoldable pub stop_reminder_text :
      SessionSignals → List SearchResult → ActionSurface → Bool → Text
  unfolding signal_lines related_lines
  stop_reminder_text s related surface managed =
      let used : ActionSurface = surface_of managed surface in
      join (10 ∷ []) (
        stop_heading
        ∷ (signal_lines s
            ++ (hint_line s
                ∷ []
                ∷ (related_lines managed used related
                    ++ (visibility_advice used ∷ managed_lines managed)))))
