-- ===== src/Densities/Table.antt =====
-- frontend/src/lib/densities.ts: the table of densities, in grams per cup.
use lunch_loxs.Prelude.{ℕ, List, [], ◌∷◌, Text, codes}

abbrev pub density_table : List (List Text × ℕ)
density_table =
    (
      codes "all-purpose flour"
          ∷ codes "all purpose flour"
          ∷ codes "ap flour"
          ∷ codes "plain flour"
          ∷ codes "flour"
          ∷ [],
      120,
    )
    ∷ (codes "bread flour" ∷ codes "strong flour" ∷ [], 130)
    ∷ (codes "cake flour" ∷ [], 114)
    ∷ (codes "pastry flour" ∷ [], 113)
    ∷ (
      codes "whole wheat flour"
          ∷ codes "wholemeal flour"
          ∷ codes "whole-wheat flour"
          ∷ codes "ww flour"
          ∷ [],
      128,
    )
    ∷ (codes "oat flour" ∷ [], 92)
    ∷ (codes "almond flour" ∷ codes "almond meal" ∷ [], 96)
    ∷ (codes "coconut flour" ∷ [], 112)
    ∷ (codes "rye flour" ∷ [], 102)
    ∷ (codes "rice flour" ∷ [], 142)
    ∷ (codes "semolina flour" ∷ codes "semolina" ∷ [], 163)
    ∷ (codes "buckwheat flour" ∷ [], 120)
    ∷ (codes "tapioca flour" ∷ codes "tapioca starch" ∷ [], 113)
    ∷ (codes "chickpea flour" ∷ codes "gram flour" ∷ codes "besan" ∷ [], 90)
    ∷ (
      codes "granulated sugar"
          ∷ codes "white sugar"
          ∷ codes "caster sugar"
          ∷ codes "sugar"
          ∷ codes "castor sugar"
          ∷ [],
      198,
    )
    ∷ (
      codes "brown sugar"
          ∷ codes "light brown sugar"
          ∷ codes "dark brown sugar"
          ∷ codes "packed brown sugar"
          ∷ codes "demerara sugar"
          ∷ codes "muscovado sugar"
          ∷ [],
      213,
    )
    ∷ (
      codes "powdered sugar"
          ∷ codes "confectioners sugar"
          ∷ codes "icing sugar"
          ∷ codes "confectioners' sugar"
          ∷ codes "10x sugar"
          ∷ [],
      113,
    )
    ∷ (codes "honey" ∷ [], 340)
    ∷ (codes "maple syrup" ∷ [], 312)
    ∷ (codes "molasses" ∷ [], 328)
    ∷ (codes "corn syrup" ∷ [], 328)
    ∷ (
      codes "butter"
          ∷ codes "unsalted butter"
          ∷ codes "salted butter"
          ∷ codes "melted butter"
          ∷ codes "cold butter"
          ∷ codes "softened butter"
          ∷ [],
      227,
    )
    ∷ (codes "olive oil" ∷ codes "extra virgin olive oil" ∷ codes "evoo" ∷ [], 216)
    ∷ (
      codes "vegetable oil"
          ∷ codes "canola oil"
          ∷ codes "sunflower oil"
          ∷ codes "oil"
          ∷ codes "cooking oil"
          ∷ codes "neutral oil"
          ∷ codes "avocado oil"
          ∷ codes "grapeseed oil"
          ∷ [],
      218,
    )
    ∷ (codes "coconut oil" ∷ [], 218)
    ∷ (codes "shortening" ∷ [], 191)
    ∷ (codes "lard" ∷ [], 205)
    ∷ (codes "baking powder" ∷ [], 230)
    ∷ (
      codes "baking soda" ∷ codes "bicarbonate of soda" ∷ codes "bicarb" ∷ codes "bi-carb" ∷ [],
      336,
    )
    ∷ (
      codes "cocoa powder"
          ∷ codes "cocoa"
          ∷ codes "cacao powder"
          ∷ codes "cacao"
          ∷ codes "dutch process cocoa"
          ∷ codes "unsweetened cocoa"
          ∷ [],
      82,
    )
    ∷ (codes "cinnamon" ∷ codes "ground cinnamon" ∷ [], 144)
    ∷ (
      codes "salt"
          ∷ codes "table salt"
          ∷ codes "fine salt"
          ∷ codes "sea salt"
          ∷ codes "fine sea salt"
          ∷ [],
      288,
    )
    ∷ (codes "kosher salt" ∷ codes "coarse salt" ∷ [], 140)
    ∷ (
      codes "milk"
          ∷ codes "whole milk"
          ∷ codes "skim milk"
          ∷ codes "2% milk"
          ∷ codes "buttermilk"
          ∷ codes "1% milk"
          ∷ codes "nonfat milk"
          ∷ codes "skimmed milk"
          ∷ [],
      245,
    )
    ∷ (
      codes "heavy cream"
          ∷ codes "whipping cream"
          ∷ codes "heavy whipping cream"
          ∷ codes "double cream"
          ∷ codes "cream"
          ∷ codes "single cream"
          ∷ codes "light cream"
          ∷ [],
      238,
    )
    ∷ (codes "sour cream" ∷ [], 230)
    ∷ (
      codes "yogurt"
          ∷ codes "yoghurt"
          ∷ codes "greek yogurt"
          ∷ codes "plain yogurt"
          ∷ codes "greek yoghurt"
          ∷ codes "natural yogurt"
          ∷ [],
      245,
    )
    ∷ (codes "cream cheese" ∷ [], 232)
    ∷ (codes "cornstarch" ∷ codes "corn starch" ∷ codes "cornflour" ∷ codes "corn flour" ∷ [], 128)
    ∷ (codes "cornmeal" ∷ codes "corn meal" ∷ codes "polenta" ∷ [], 138)
    ∷ (
      codes "rice"
          ∷ codes "white rice"
          ∷ codes "long grain rice"
          ∷ codes "basmati rice"
          ∷ codes "jasmine rice"
          ∷ codes "sushi rice"
          ∷ codes "arborio rice"
          ∷ [],
      185,
    )
    ∷ (
      codes "oats"
          ∷ codes "rolled oats"
          ∷ codes "old-fashioned oats"
          ∷ codes "old fashioned oats"
          ∷ codes "oatmeal"
          ∷ [],
      80,
    )
    ∷ (codes "breadcrumbs" ∷ codes "bread crumbs" ∷ [], 108)
    ∷ (codes "panko" ∷ codes "panko breadcrumbs" ∷ [], 50)
    ∷ (
      codes "almonds"
          ∷ codes "sliced almonds"
          ∷ codes "slivered almonds"
          ∷ codes "chopped almonds"
          ∷ [],
      143,
    )
    ∷ (codes "walnuts" ∷ codes "chopped walnuts" ∷ [], 120)
    ∷ (codes "pecans" ∷ codes "chopped pecans" ∷ [], 109)
    ∷ (codes "cashews" ∷ codes "cashew nuts" ∷ [], 137)
    ∷ (codes "hazelnuts" ∷ codes "filberts" ∷ [], 135)
    ∷ (codes "peanuts" ∷ [], 146)
    ∷ (
      codes "peanut butter"
          ∷ codes "almond butter"
          ∷ codes "nut butter"
          ∷ codes "cashew butter"
          ∷ codes "sunflower butter"
          ∷ codes "tahini"
          ∷ [],
      258,
    )
    ∷ (codes "chocolate chips" ∷ codes "chocolate morsels" ∷ codes "choc chips" ∷ [], 170)
    ∷ []
