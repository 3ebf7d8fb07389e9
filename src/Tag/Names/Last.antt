-- ===== src/Tag/Names/Last.antt =====
-- types.gen.go: the numbers of tags and the names of their constants, the last third.
use go_rpm.Base.{ℕ, Bytes, List, [], ◌∷◌, codes}

unfoldable pub last_names : List (ℕ × Bytes)
last_names =
    (5025, codes "RPMTAG_POSTTRANSFLAGS")
    ∷ (5026, codes "RPMTAG_VERIFYSCRIPTFLAGS")
    ∷ (5027, codes "RPMTAG_TRIGGERSCRIPTFLAGS")
    ∷ (5029, codes "RPMTAG_COLLECTIONS")
    ∷ (5030, codes "RPMTAG_POLICYNAMES")
    ∷ (5031, codes "RPMTAG_POLICYTYPES")
    ∷ (5032, codes "RPMTAG_POLICYTYPESINDEXES")
    ∷ (5033, codes "RPMTAG_POLICYFLAGS")
    ∷ (5034, codes "RPMTAG_VCS")
    ∷ (5035, codes "RPMTAG_ORDERNAME")
    ∷ (5036, codes "RPMTAG_ORDERVERSION")
    ∷ (5037, codes "RPMTAG_ORDERFLAGS")
    ∷ (5038, codes "RPMTAG_MSSFMANIFEST")
    ∷ (5039, codes "RPMTAG_MSSFDOMAIN")
    ∷ (5040, codes "RPMTAG_INSTFILENAMES")
    ∷ (5041, codes "RPMTAG_REQUIRENEVRS")
    ∷ (5042, codes "RPMTAG_PROVIDENEVRS")
    ∷ (5043, codes "RPMTAG_OBSOLETENEVRS")
    ∷ (5044, codes "RPMTAG_CONFLICTNEVRS")
    ∷ (5045, codes "RPMTAG_FILENLINKS")
    ∷ (5046, codes "RPMTAG_RECOMMENDNAME")
    ∷ (5047, codes "RPMTAG_RECOMMENDVERSION")
    ∷ (5048, codes "RPMTAG_RECOMMENDFLAGS")
    ∷ (5049, codes "RPMTAG_SUGGESTNAME")
    ∷ (5050, codes "RPMTAG_SUGGESTVERSION")
    ∷ (5051, codes "RPMTAG_SUGGESTFLAGS")
    ∷ (5052, codes "RPMTAG_SUPPLEMENTNAME")
    ∷ (5053, codes "RPMTAG_SUPPLEMENTVERSION")
    ∷ (5054, codes "RPMTAG_SUPPLEMENTFLAGS")
    ∷ (5055, codes "RPMTAG_ENHANCENAME")
    ∷ (5056, codes "RPMTAG_ENHANCEVERSION")
    ∷ (5057, codes "RPMTAG_ENHANCEFLAGS")
    ∷ (5058, codes "RPMTAG_RECOMMENDNEVRS")
    ∷ (5059, codes "RPMTAG_SUGGESTNEVRS")
    ∷ (5060, codes "RPMTAG_SUPPLEMENTNEVRS")
    ∷ (5061, codes "RPMTAG_ENHANCENEVRS")
    ∷ (5062, codes "RPMTAG_ENCODING")
    ∷ (5063, codes "RPMTAG_FILETRIGGERIN")
    ∷ (5064, codes "RPMTAG_FILETRIGGERUN")
    ∷ (5065, codes "RPMTAG_FILETRIGGERPOSTUN")
    ∷ (5066, codes "RPMTAG_FILETRIGGERSCRIPTS")
    ∷ (5067, codes "RPMTAG_FILETRIGGERSCRIPTPROG")
    ∷ (5068, codes "RPMTAG_FILETRIGGERSCRIPTFLAGS")
    ∷ (5069, codes "RPMTAG_FILETRIGGERNAME")
    ∷ (5070, codes "RPMTAG_FILETRIGGERINDEX")
    ∷ (5071, codes "RPMTAG_FILETRIGGERVERSION")
    ∷ (5072, codes "RPMTAG_FILETRIGGERFLAGS")
    ∷ (5073, codes "RPMTAG_TRANSFILETRIGGERIN")
    ∷ (5074, codes "RPMTAG_TRANSFILETRIGGERUN")
    ∷ (5075, codes "RPMTAG_TRANSFILETRIGGERPOSTUN")
    ∷ (5076, codes "RPMTAG_TRANSFILETRIGGERSCRIPTS")
    ∷ (5077, codes "RPMTAG_TRANSFILETRIGGERSCRIPTPROG")
    ∷ (5078, codes "RPMTAG_TRANSFILETRIGGERSCRIPTFLAGS")
    ∷ (5079, codes "RPMTAG_TRANSFILETRIGGERNAME")
    ∷ (5080, codes "RPMTAG_TRANSFILETRIGGERINDEX")
    ∷ (5081, codes "RPMTAG_TRANSFILETRIGGERVERSION")
    ∷ (5082, codes "RPMTAG_TRANSFILETRIGGERFLAGS")
    ∷ (5083, codes "RPMTAG_REMOVEPATHPOSTFIXES")
    ∷ (5084, codes "RPMTAG_FILETRIGGERPRIORITIES")
    ∷ (5085, codes "RPMTAG_TRANSFILETRIGGERPRIORITIES")
    ∷ (5086, codes "RPMTAG_FILETRIGGERCONDS")
    ∷ (5087, codes "RPMTAG_FILETRIGGERTYPE")
    ∷ (5088, codes "RPMTAG_TRANSFILETRIGGERCONDS")
    ∷ (5089, codes "RPMTAG_TRANSFILETRIGGERTYPE")
    ∷ (5090, codes "RPMTAG_FILESIGNATURES")
    ∷ (5091, codes "RPMTAG_FILESIGNATURELENGTH")
    ∷ (5092, codes "RPMTAG_PAYLOADDIGEST")
    ∷ (5093, codes "RPMTAG_PAYLOADDIGESTALGO")
    ∷ (5094, codes "RPMTAG_AUTOINSTALLED")
    ∷ (5095, codes "RPMTAG_IDENTITY")
    ∷ (5096, codes "RPMTAG_MODULARITYLABEL")
    ∷ (5097, codes "RPMTAG_PAYLOADDIGESTALT")
    ∷ (100, codes "RPMTAG_HEADERI18NTABLE")
    ∷ (61, codes "RPMTAG_HEADERIMAGE")
    ∷ (63, codes "RPMTAG_HEADERIMMUTABLE")
    ∷ (64, codes "RPMTAG_HEADERREGIONS")
    ∷ (256, codes "RPMTAG_SIG_BASE")
    ∷ (62, codes "RPMTAG_HEADERSIGNATURES")
    ∷ (257, codes "RPMTAG_SIGSIZE")
    ∷ (266, codes "RPMTAG_PUBKEYS")
    ∷ (267, codes "RPMTAG_DSAHEADER")
    ∷ (268, codes "RPMTAG_RSAHEADER")
    ∷ (269, codes "RPMTAG_SHA1HEADER")
    ∷ (270, codes "RPMTAG_LONGSIGSIZE")
    ∷ (271, codes "RPMTAG_LONGARCHIVESIZE")
    ∷ (273, codes "RPMTAG_SHA256HEADER")
    ∷ (258, codes "RPMTAG_SIGLEMD5_1")
    ∷ (259, codes "RPMTAG_SIGPGP")
    ∷ (260, codes "RPMTAG_SIGLEMD5_2")
    ∷ (261, codes "RPMTAG_SIGMD5")
    ∷ (262, codes "RPMTAG_SIGGPG")
    ∷ (263, codes "RPMTAG_SIGPGP5")
    ∷ (264, codes "RPMTAG_BADSHA1_1")
    ∷ (265, codes "RPMTAG_BADSHA1_2")
    ∷ (1054, codes "RPMTAG_C")
    ∷ (1163, codes "RPMTAG_SVNID")
    ∷ (5055, codes "RPMTAG_ENHANCES")
    ∷ (1003, codes "RPMTAG_E")
    ∷ (1035, codes "RPMTAG_FILEMD5S")
    ∷ (1000, codes "RPMTAG_N")
    ∷ (1090, codes "RPMTAG_O")
    ∷ (1159, codes "RPMTAG_OLDENHANCES")
    ∷ (1156, codes "RPMTAG_OLDSUGGESTS")
    ∷ (1047, codes "RPMTAG_P")
    ∷ (5046, codes "RPMTAG_RECOMMENDS")
    ∷ (1002, codes "RPMTAG_R")
    ∷ (1049, codes "RPMTAG_REQUIRES")
    ∷ (269, codes "RPMTAG_HDRID")
    ∷ (261, codes "RPMTAG_PKGID")
    ∷ (5049, codes "RPMTAG_SUGGESTS")
    ∷ (5052, codes "RPMTAG_SUPPLEMENTS")
    ∷ (1001, codes "RPMTAG_V")
    ∷ []
