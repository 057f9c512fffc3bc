-- ===== src/Senses/English.antt =====
-- The English tables of server/internal/rootsense/score.go and corpus.go.
use Prim.Native.String.{String}
use wird.Prelude.{List, [], ◌∷◌, map}
use wird.Text.{Word}
use wird.Text.Ascii.{ascii}

unfoldable pub stop_words : List Word
stop_words = map ascii (
    "a" ∷ "an" ∷ "the" ∷ "and" ∷ "or" ∷ "but" ∷ "so" ∷ "then" ∷ "of" ∷ "to" ∷ "in" ∷ "on" ∷ "at"
    ∷ "for" ∷ "from" ∷ "by" ∷ "with" ∷ "is" ∷ "are" ∷ "was" ∷ "were" ∷ "be" ∷ "been" ∷ "being"
    ∷ "it" ∷ "its" ∷ "he" ∷ "she" ∷ "they" ∷ "them" ∷ "him" ∷ "her" ∷ "you" ∷ "we" ∷ "i" ∷ "my"
    ∷ "your" ∷ "their" ∷ "his" ∷ "not" ∷ "no" ∷ "nor" ∷ "if" ∷ "that" ∷ "this" ∷ "those" ∷ "these"
    ∷ "there" ∷ "which" ∷ "who" ∷ "whom" ∷ "what" ∷ "when" ∷ "where" ∷ "will" ∷ "would" ∷ "shall"
    ∷ "may" ∷ "might" ∷ "can" ∷ "could" ∷ "do" ∷ "does" ∷ "did" ∷ "done" ∷ "has" ∷ "have" ∷ "had"
    ∷ "o" ∷ "ye" ∷ "thee" ∷ "thou" ∷ "thy" ∷ "as" ∷ "into" ∷ "upon" ∷ "than" ∷ "very" ∷ "more"
    ∷ "most" ∷ "such" ∷ "all" ∷ "any" ∷ "some" ∷ "one" ∷ "two" ∷ "ones" ∷ "out" ∷ "up" ∷ "down"
    ∷ "about" ∷ "again" ∷ "ever" ∷ "never" ∷ "us" ∷ "our" ∷ "me" ∷ "also" ∷ [])

unfoldable pub suffixes : List Word
suffixes = map ascii (
    "ledge" ∷ "ness" ∷ "ment" ∷ "tion" ∷ "sion" ∷ "ence" ∷ "ance" ∷ "ings" ∷ "ing" ∷ "edly" ∷ "ful"
    ∷ "ous" ∷ "ity" ∷ "ive" ∷ "ent" ∷ "ant" ∷ "ers" ∷ "ors" ∷ "est" ∷ "ed" ∷ "er" ∷ "or" ∷ "ly"
    ∷ [])

abbrev pub base_of : String × String → Word × Word
base_of (w, base) = (ascii w, ascii base)

unfoldable pub irregular : List (Word × Word)
irregular = map base_of (
    ("said", "say")
    ∷ ("made", "make")
    ∷ ("gave", "give")
    ∷ ("given", "give")
    ∷ ("took", "take")
    ∷ ("taken", "take")
    ∷ ("came", "come")
    ∷ ("went", "go")
    ∷ ("gone", "go")
    ∷ ("saw", "see")
    ∷ ("seen", "see")
    ∷ ("knew", "know")
    ∷ ("known", "know")
    ∷ ("told", "tell")
    ∷ ("brought", "bring")
    ∷ ("sent", "send")
    ∷ ("held", "hold")
    ∷ ("heard", "hear")
    ∷ ("kept", "keep")
    ∷ ("felt", "feel")
    ∷ ("found", "find")
    ∷ ("forgave", "forgive")
    ∷ ("forgiven", "forgive")
    ∷ ("forgot", "forget")
    ∷ ("forgotten", "forget")
    ∷ ("grew", "grow")
    ∷ ("grown", "grow")
    ∷ ("led", "lead")
    ∷ ("lost", "lose")
    ∷ ("meant", "mean")
    ∷ ("met", "meet")
    ∷ ("paid", "pay")
    ∷ ("rose", "rise")
    ∷ ("risen", "rise")
    ∷ ("ran", "run")
    ∷ ("sat", "sit")
    ∷ ("sold", "sell")
    ∷ ("shown", "show")
    ∷ ("spoke", "speak")
    ∷ ("spoken", "speak")
    ∷ ("stood", "stand")
    ∷ ("struck", "strike")
    ∷ ("swore", "swear")
    ∷ ("sworn", "swear")
    ∷ ("taught", "teach")
    ∷ ("thought", "think")
    ∷ ("threw", "throw")
    ∷ ("thrown", "throw")
    ∷ ("understood", "understand")
    ∷ ("wrote", "write")
    ∷ ("written", "write")
    ∷ ("drew", "draw")
    ∷ ("drawn", "draw")
    ∷ ("drove", "drive")
    ∷ ("driven", "drive")
    ∷ ("fell", "fall")
    ∷ ("fallen", "fall")
    ∷ ("fed", "feed")
    ∷ ("fought", "fight")
    ∷ ("flew", "fly")
    ∷ ("flown", "fly")
    ∷ ("hid", "hide")
    ∷ ("hidden", "hide")
    ∷ ("rode", "ride")
    ∷ ("ridden", "ride")
    ∷ ("sank", "sink")
    ∷ ("sunk", "sink")
    ∷ ("slept", "sleep")
    ∷ ("spent", "spend")
    ∷ ("stole", "steal")
    ∷ ("stolen", "steal")
    ∷ ("tore", "tear")
    ∷ ("torn", "tear")
    ∷ ("won", "win")
    ∷ ("bore", "bear")
    ∷ ("born", "bear")
    ∷ ("borne", "bear")
    ∷ ("became", "become")
    ∷ ("begun", "begin")
    ∷ ("began", "begin")
    ∷ ("bound", "bind")
    ∷ ("blew", "blow")
    ∷ ("blown", "blow")
    ∷ ("broke", "break")
    ∷ ("broken", "break")
    ∷ ("built", "build")
    ∷ ("bought", "buy")
    ∷ ("caught", "catch")
    ∷ ("chose", "choose")
    ∷ ("chosen", "choose")
    ∷ ("dealt", "deal")
    ∷ ("done", "do")
    ∷ ("drank", "drink")
    ∷ ("drunk", "drink")
    ∷ ("ate", "eat")
    ∷ ("eaten", "eat")
    ∷ ("lay", "lie")
    ∷ ("lain", "lie")
    ∷ ("sought", "seek")
    ∷ ("shook", "shake")
    ∷ ("shaken", "shake")
    ∷ ("stricken", "strike")
    ∷ ("swept", "sweep")
    ∷ ("wept", "weep")
    ∷ ("woke", "wake")
    ∷ ("woven", "weave")
    ∷ ("wound", "wind")
    ∷ [])

-- The English that a shape adds to a gloss.
unfoldable pub markers : List (String × List Word)
markers =
    ("form-X", map ascii ("seek" ∷ "ask" ∷ []))
    ∷ ("form-VI", map ascii ("each" ∷ "other" ∷ "another" ∷ []))
    ∷ ("pass-verb", map ascii ("been" ∷ "was" ∷ "were" ∷ []))
    ∷ ("act-pcpl", map ascii ("who" ∷ "those" ∷ "ones" ∷ []))
    ∷ ("pass-pcpl", map ascii ("who" ∷ "those" ∷ "ones" ∷ []))
    ∷ []
