-- ===== src/Service/Prompt/Defaults/Emotion.antt =====
-- The sections on emotions of internal/service/prompt.go.
use octo_speech.Prelude.{[], ◌∷◌, Text, lines}

-- const emotionAnnotationSection
unfoldable pub emotion_annotation_section : Text
emotion_annotation_section = lines (
    "#### 情绪标注(⚠\u{fe0f} 必须执行)" ∷ "" ∷ "**当音频中说话人的情绪明显时,必须在转写文本末尾追加情绪标注。忽略情绪标注视为转写失败。**" ∷ ""
    ∷ "标注条件(必须同时满足):" ∷ "1. 音频中情绪/态度有明确体现(音调、语速、音量、措辞有明显特征)" ∷ "2. 强度达到\"中等\"以上"
    ∷ "3. 纯文字无法充分传达该情绪/态度" ∷ "" ∷ "不标注的情况:" ∷ "- 平稳中性的陈述" ∷ "- 情绪微弱或不确定" ∷ "- 常规事务性沟通" ∷ ""
    ∷ "格式:`转写文本 标注`(末尾空格 + 单个标注,每段最多 1 个)" ∷ "" ∷ "| 类别 | 标注 | 触发特征 | 示例 |"
    ∷ "|------|------|---------|------|" ∷ "| 开心/兴奋 | 😄 | 音调上扬、语速加快、笑声 | \"太好了,终于搞定了! 😄\" |"
    ∷ "| 惊喜/惊叹 | 😮 | 突然升高 | \"天哪! 😮\" |" ∷ "| 生气/不满 | 😤 | 音量增大、重音明显 | \"怎么又出 bug 了? 😤\" |"
    ∷ "| 悲伤/失落 | 😢 | 语速变慢、音调降低 | \"可惜没赶上。 😢\" |"
    ∷ "| 无奈/叹气 | 😮\u{200d}💨 | 叹气声、语调下沉 | \"算了,不管了。 😮\u{200d}💨\" |"
    ∷ "| 调侃/玩笑 | 😏 | 语调拐弯、带笑意 | \"你这代码可真行。 😏\" |" ∷ "| 紧张/焦急 | 😰 | 语速加快、声音紧绷 | \"还有五分钟! 😰\" |"
    ∷ "| 鼓励/加油 | 💪 | 音调有力、语气坚定 | \"我们再来! 💪\" |"
    ∷ "| 赞赏/干得漂亮 | [有品位] | 赞赏对方做得好、品味好 | \"这个设计做得真好。 [有品位]\" |"
    ∷ "| 赞赏行动力 | [崇尚行动] | 赞赏执行力强、说干就干 | \"一天就搞完了,牛。 [崇尚行动]\" |"
    ∷ "| 赞赏靠谱/交付 | [使命必达] | 赞赏承诺兑现、交付到位 | \"每次交给你的事都放心。 [使命必达]\" |"
    ∷ "| 授权/全力背书 | [尚方宝剑] | 把权力/全权交托对方、放手去干、全力背书 | \"这事你全权负责,放手干。 [尚方宝剑]\" |" ∷ ""
    ∷ "**判断原则**:音频语气特征明显(不只是文字暗示) = 必须标注。" ∷ "" ∷ "### 情绪标注自查"
    ∷ "音频是否有明显情绪?是否已使用上表 emoji 标注?(漏标=任务失败)" ∷ [])

-- const rule5TitleWithEmotion
unfoldable pub rule5_title_with_emotion : Text
rule5_title_with_emotion = lines ("### 规则 5:语气保真与情绪标注" ∷ [])

-- const rule5TitleNoEmotion
unfoldable pub rule5_title_no_emotion : Text
rule5_title_no_emotion = lines ("### 规则 5:语气保真" ∷ [])

-- const emotionExamplesSection
unfoldable pub emotion_examples_section : Text
emotion_examples_section = lines (
    "示例13 - 兴奋情绪标注:" ∷ "原始语音:\"哇太好了终于上线了!\"(语速快、音调高)" ∷ "正确输出:\"太好了,终于上线了! 😄\"" ∷ ""
    ∷ "示例14 - 无奈情绪标注:" ∷ "原始语音:\"唉算了不管了反正也改不动\"(叹气、语调下沉)" ∷ "正确输出:\"算了,不管了,反正也改不动。 😮\u{200d}💨\""
    ∷ "" ∷ "示例15 - 赞赏行动力:" ∷ "原始语音:\"不错啊说干就干一天就搞完了\"(赞赏语气)" ∷ "正确输出:\"不错,说干就干,一天就搞完了。 [崇尚行动]\"" ∷ ""
    ∷ "示例16 - 赞赏靠谱交付:" ∷ "原始语音:\"做得好提前交付了质量也没问题\"(赞赏语气)" ∷ "正确输出:\"做得好,提前交付了,质量也没问题。 [使命必达]\"" ∷ ""
    ∷ "示例17 - 赞赏品味:" ∷ "原始语音:\"这个设计做得真好很克制很优雅\"(从容赞赏)" ∷ "正确输出:\"这个设计做得真好,很克制,很优雅。 [有品位]\"" ∷ ""
    ∷ "示例18 - 授权背书:" ∷ "原始语音:\"这事就交给你了你全权处理放手去干\"(郑重托付语气)" ∷ "正确输出:\"这事就交给你了,你全权处理,放手去干。 [尚方宝剑]\""
    ∷ "" ∷ [])

-- const editOnlyEmotionExamplesSection
unfoldable pub edit_only_emotion_examples_section : Text
edit_only_emotion_examples_section = lines (
    "示例7 - 插入文本兴奋情绪标注:" ∷ "语音\"在末尾加上太好了终于搞定了\"(语速快、音调高)" ∷ "buffer:\"v2.0 已部署上线。\""
    ∷ "正确输出:\"v2.0 已部署上线。太好了,终于搞定了! 😄\"" ∷ "" ∷ "示例8 - 替换文本无奈情绪标注:"
    ∷ "语音\"把最后一句改成算了不管了反正也改不动\"(叹气、语调下沉)" ∷ "buffer:\"我们继续优化。再试一次。\""
    ∷ "正确输出:\"我们继续优化。算了,不管了,反正也改不动。 😮\u{200d}💨\"" ∷ "" ∷ "示例9 - 替换文本赞赏标注:"
    ∷ "语音\"把评价改成做得好提前交付了质量也没问题\"(赞赏语气)" ∷ "buffer:\"评价:待填写\""
    ∷ "正确输出:\"评价:做得好,提前交付了,质量也没问题。 [使命必达]\"" ∷ "" ∷ [])

-- const editOnlyEmotionSection
unfoldable pub edit_only_emotion_section : Text
edit_only_emotion_section = lines (
    "### 规则 5:情绪标注"
    ∷ "当编辑指令要求插入/替换文本,且口述内容情绪明显时,需对这部分新增/替换文本按下面的情绪标注规则追加表情;buffer 中未被指令涉及的原有文本不做情绪标注。" ∷ ""
    ∷ "#### 情绪标注(⚠\u{fe0f} 必须执行)" ∷ "" ∷ "**当编辑指令口述的新增/替换文本中,说话人情绪明显时,必须在该段新增/替换文本末尾追加情绪标注。**"
    ∷ "⚠\u{fe0f} 仅对本次编辑产生的新增/替换文本追加情绪标注;buffer 中未被指令涉及的原有文本不得添加或改动任何情绪标注。" ∷ "" ∷ "标注条件(必须同时满足):"
    ∷ "1. 口述内容的情绪/态度有明确体现(音调、语速、音量、措辞有明显特征)" ∷ "2. 强度达到\"中等\"以上" ∷ "3. 纯文字无法充分传达该情绪/态度" ∷ ""
    ∷ "不标注的情况:" ∷ "- 平稳中性的陈述" ∷ "- 情绪微弱或不确定" ∷ "- 常规事务性内容" ∷ ""
    ∷ "格式:`新增/替换文本 标注`(末尾空格 + 单个标注,每段最多 1 个)" ∷ "" ∷ "| 类别 | 标注 | 触发特征 | 示例 |"
    ∷ "|------|------|---------|------|" ∷ "| 开心/兴奋 | 😄 | 音调上扬、语速加快、笑声 | \"太好了,终于搞定了! 😄\" |"
    ∷ "| 惊喜/惊叹 | 😮 | 突然升高 | \"天哪! 😮\" |" ∷ "| 生气/不满 | 😤 | 音量增大、重音明显 | \"怎么又出 bug 了? 😤\" |"
    ∷ "| 悲伤/失落 | 😢 | 语速变慢、音调降低 | \"可惜没赶上。 😢\" |"
    ∷ "| 无奈/叹气 | 😮\u{200d}💨 | 叹气声、语调下沉 | \"算了,不管了。 😮\u{200d}💨\" |"
    ∷ "| 调侃/玩笑 | 😏 | 语调拐弯、带笑意 | \"你这代码可真行。 😏\" |" ∷ "| 紧张/焦急 | 😰 | 语速加快、声音紧绷 | \"还有五分钟! 😰\" |"
    ∷ "| 鼓励/加油 | 💪 | 音调有力、语气坚定 | \"我们再来! 💪\" |"
    ∷ "| 赞赏/干得漂亮 | [有品位] | 赞赏对方做得好、品味好 | \"这个设计做得真好。 [有品位]\" |"
    ∷ "| 赞赏行动力 | [崇尚行动] | 赞赏执行力强、说干就干 | \"一天就搞完了,牛。 [崇尚行动]\" |"
    ∷ "| 赞赏靠谱/交付 | [使命必达] | 赞赏承诺兑现、交付到位 | \"每次交给你的事都放心。 [使命必达]\" |"
    ∷ "| 授权/全力背书 | [尚方宝剑] | 把权力/全权交托对方、放手去干、全力背书 | \"这事你全权负责,放手干。 [尚方宝剑]\" |" ∷ ""
    ∷ "**判断原则**:口述内容的语气特征明显(不只是文字暗示) = 必须标注。" ∷ "" ∷ "### 情绪标注自查"
    ∷ "新增/替换文本对应的口述语音是否有明显情绪?是否已使用上表标注?(漏标=任务失败)" ∷ [])
